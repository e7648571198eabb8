-- ===== src/Text.antt =====
-- Python's order on texts, which is that of their code points, `sorted` on a list of texts, and
-- `rstrip("/")`.
use Prim.Native.Char.{code}
use Prim.Native.String as S
use funduq_server.Prelude.{
  ℕ, String, Bool, true, false, ◌&&◌, ◌==◌, List, [], ◌∷◌, nat_eq, ltb, if◌then◌else◌,
}

-- The code points of a text.
abbrev pub codes : String → List ℕ
codes String.[] = []
codes (String.◌∷◌ c s) = code c ∷ codes s

leb_codes : List ℕ → List ℕ → Bool
leb_codes [] ds = true
leb_codes (c ∷ cs) [] = false
leb_codes (c ∷ cs) (d ∷ ds) =
    let rest = leb_codes cs ds in if ltb c d then true else if nat_eq c d then rest else false

unfoldable pub leb_text : String → String → Bool
unfolding leb_codes
leb_text s t = leb_codes (codes s) (codes t)

unfoldable pub insert_text : String → List String → List String
insert_text s [] = s ∷ []
insert_text s (t ∷ ts) =
    let later = insert_text s ts in if leb_text s t then s ∷ t ∷ ts else t ∷ later

unfoldable pub sorted : List String → List String
unfolding insert_text
sorted [] = []
sorted (s ∷ ts) = insert_text s (sorted ts)

-- `s.rstrip("/")`
unfoldable pub rstrip_slash : String → String
rstrip_slash S.[] = ""
rstrip_slash (S.◌∷◌ c s) =
    let rest = rstrip_slash s in if (rest == "") && (S.◌∷◌ c "" == "/") then "" else S.◌∷◌ c rest
