-- ===== src/Docent/Search.antt =====
-- `_matches`: the keyword match over everything that an agent says about itself.
use Prim.Native.Char.{code}
use Prim.Native.String as S
use funduq_server.Prelude.{
  String, Bool, true, ◌&&◌, ◌||◌, List, [], ◌∷◌, ◌++◌, map, any, length, leb, nat_eq, if◌then◌else◌,
  ◌==◌, Result, ok, raise, ErrorClass, ◌>>=◌, ℕ,
}
use funduq_server.Text.{codes}
use text.Mathlib.Text.{starts_with}
use funduq_server.Json.{
  Json, str, arr, obj, Items, Dict, empty, entry, lookup, or_else, to_list, truthy,
}
use funduq_server.Docent.{Summary, Guide}

-- `str.isspace`
unfoldable pub is_space : ℕ → Bool
is_space c =
    (leb 9 c && leb c 13)
    || (leb 28 c && leb c 32)
    || nat_eq c 133
    || nat_eq c 160
    || nat_eq c 5760
    || (leb 8192 c && leb c 8202)
    || nat_eq c 8232
    || nat_eq c 8233
    || nat_eq c 8239
    || nat_eq c 8287
    || nat_eq c 12288

abbrev add_word : String → List String → List String
add_word word words = if word == "" then words else word ∷ words

-- the word that a text begins with, which may be empty, and the words after it
split_first : String → String × List String
unfolding is_space
split_first S.[] = ("", [])
split_first (S.◌∷◌ c s) =
    let (word, words) = split_first s in
    if is_space (code c) then ("", add_word word words) else (S.◌∷◌ c word, words)

-- `s.split()`
unfoldable pub split : String → List String
unfolding split_first
split s = let (word, words) = split_first s in add_word word words

lstrip : String → String
unfolding is_space
lstrip S.[] = ""
lstrip (S.◌∷◌ c s) = let rest = lstrip s in if is_space (code c) then rest else S.◌∷◌ c s

rstrip : String → String
unfolding is_space
rstrip S.[] = ""
rstrip (S.◌∷◌ c s) =
    let rest = rstrip s in if (rest == "") && is_space (code c) then "" else S.◌∷◌ c rest

-- `s.strip()`
unfoldable pub strip : String → String
unfolding lstrip rstrip
strip s = rstrip (lstrip s)

-- `needle in text`
unfoldable pub contains : String → String → Bool
contains S.[] needle = needle == ""
contains (S.◌∷◌ c text) needle = starts_with (S.◌∷◌ c text) needle || contains text needle

-- `" ".join(texts)`
unfoldable pub join : List String → String
join [] = ""
join (s ∷ []) = s
join (s ∷ t ∷ rest) = S.◌++◌ s (S.◌++◌ " " (join (t ∷ rest)))

-- Iterating over a text gives its characters, over a dict its keys.
characters : String → List Json
characters S.[] = []
characters (S.◌∷◌ c s) = str (S.◌∷◌ c "") ∷ characters s

keys : Dict → List Json
keys empty = []
keys (entry k v d) = str k ∷ keys d

iterate : Json → Result (List Json)
unfolding characters keys
iterate (arr items) = ok (to_list items)
iterate (str s) = ok (characters s)
iterate (obj d) = ok (keys d)
iterate _ = raise (record { class = ErrorClass.type_error; text = "object is not iterable" })

module _ (guide : Guide) where
  -- `str(x)`
  py_str : Json → String
  py_str (str s) = s
  py_str j = guide.show j

  -- `skill.get("tags", []) or []`
  tags_of : Dict → Result (List Json)
  unfolding iterate
  tags_of skill =
      let tags = or_else (lookup "tags" skill) (arr Items.nil) in
      if truthy tags then iterate tags else ok []

  skill_texts : Json → Result (List String)
  unfolding py_str tags_of
  skill_texts (obj skill) = do
    tags ← tags_of skill
    ok (
        py_str (or_else (lookup "name" skill) (str ""))
        ∷ py_str (or_else (lookup "description" skill) (str ""))
        ∷ map py_str tags)
  skill_texts j = ok []

  skills_texts : List Json → Result (List String)
  unfolding skill_texts
  skills_texts [] = ok []
  skills_texts (skill ∷ rest) = do
    first ← skill_texts skill
    others ← skills_texts rest
    ok (first ++ others)

  -- `" ".join(haystack).lower()`
  unfoldable pub haystack : Summary → Result String
  unfolding skills_texts join
  haystack agent = do
    texts ← skills_texts agent.skills
    ok (guide.lower (join (agent.name ∷ agent.description ∷ texts)))

  abbrev pub says : String → String → Bool
  says needle text =
      if contains text needle
      then true
      else any (λ word. leb 3 (length (codes word)) && contains text word) (split needle)

  unfoldable pub matches : Summary → String → Result Bool
  unfolding haystack
  matches agent needle = do text ← haystack agent; ok (says needle text)
