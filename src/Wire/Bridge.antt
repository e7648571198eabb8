-- ===== src/Wire/Bridge.antt =====
-- The link of a bridge: its hello and its offering at the gateway's socket, and the gateway's
-- answers at the bridge.
use funduq_server.Prelude.{
  ℕ, String, false, ◌||◌, ◌≡◌, refl, ap, ◌∙◌, some, List, [], ◌∷◌, map, any, member, ok, ◌==◌,
  arith, if◌then◌else◌, inr, Bool-cases, inl,
}
use funduq_server.Text.{sorted, insert_text, leb_text}
use funduq_server.Json.{null, str, arr, obj, Dict, dict, of_list}
use funduq_server.Json.Laws.{to_list-of_list}
use funduq_server.Funduq.{LlmFunduq, Contract, Connect}
use funduq_server.WsCommon.{text, receive_hello, parse_frame, Loop, is_type}
use funduq_server.Wire.Handshake.{require-filled}
use funduq_server.WsKyok.Hello.{read_hello}
use funduq_server.WsKyok.Link.{put_frame, new_link}
use funduq_server.WsKyok.Socket.{Conn, read_message, kind_of, register_models, after_register}
use funduq_server.WsKyok.Session.{opened, welcome, open_socket, after_hello, attach, after_attach}
use funduq_server.AgentSdk.Handshake.{Keys}
use funduq_server.KyokBridge.Handshake.{
  go, stop, wrong_funduq, runtime_error, hello_frame, check_welcome, register_frame,
  check_registered,
}

-- What the bridge claims and signs, as the gateway hands it to the core.
abbrev pub claim : Keys → String → String → String → Connect
claim keys ticket key nonce = record {
  public_key = keys.public_key;
  ticket = ticket;
  nonce = nonce;
  proof = keys.sign_connect key ticket nonce;
  max_concurrent_runs = null;
}

abbrev pub greeted : {S : Type 0} → ℕ → S → String → Dict → Conn S
greeted id s key frame = record {
  id = id;
  core = s;
  link = put_frame frame (new_link key);
  loop = Loop.running;
}

read_hello-claim :
    (contract : Contract) (keys : Keys) (ticket key nonce : String)
    → (keys.public_key == "") ≡ false
    → (ticket == "") ≡ false
    → (nonce == "") ≡ false
    → (keys.sign_connect key ticket nonce == "") ≡ false
    → read_hello contract (hello_frame keys ticket key nonce) ≡ inr (claim keys ticket key nonce)
unfolding read_hello hello_frame
read_hello-claim contract keys ticket key nonce k t n p =
    require-filled _ _ k (require-filled _ _ t (require-filled _ _ n (require-filled _ _ p refl)))

-- A bridge's hello, with nothing left empty, is put to the core as the claim that the bridge
-- signed. If the core accepts with an answer, the socket opens with the welcome as its one frame,
-- and the bridge goes past it exactly if that answer verifies under the key that came with its
-- ticket; else it stops for a wrong funduq.
pub bridge-opens :
    {S : Type 0} (core : LlmFunduq S) (contract : Contract) (id : ℕ) (s s' : S) (keys : Keys)
    (ticket key nonce answer : String)
    → (keys.public_key == "") ≡ false
    → (ticket == "") ≡ false
    → (nonce == "") ≡ false
    → (keys.sign_connect key ticket nonce == "") ≡ false
    → core.attach_llm_provider s id (claim keys ticket key nonce) ≡ (ok answer, s')
    → (open_socket core contract id s (some (text (some (obj (hello_frame keys ticket key nonce)))))
        ≡ opened (greeted id s' keys.public_key (welcome core.identity_public_key answer)))
      × (check_welcome keys ticket key nonce (welcome core.identity_public_key answer) ≡ (
          if keys.verify_signature key answer (keys.funduq_connect_payload ticket nonce)
          then go tt
          else stop wrong_funduq))
unfolding open_socket receive_hello parse_frame check_welcome welcome put_frame after_hello attach
    after_attach hello_frame
bridge-opens core contract id s s' keys ticket key nonce answer k t n p accepts =
    (rw (read_hello-claim contract keys ticket key nonce k t n p, accepts) refl, refl)

-- A list of texts as JSON, and what is among them.
any-member : (x : String) (xs : List String) → any (is_type x) (map str xs) ≡ member x xs
any-member x [] = refl
any-member x (y ∷ ys) = ap (λ b. (y == x) || b) (any-member x ys)

any-insert :
    (x s : String) (ts : List String) → member x (insert_text s ts) ≡ ((s == x) || member x ts)
unfolding insert_text
any-insert x s [] = refl
any-insert x s (t ∷ ts) = elim (Bool-cases (leb_text s t)) [
  | inl first ↦ rw first
  | inr later ↦ rw (later, any-insert x s ts) (ground arith)
]

member-sorted : (x : String) (xs : List String) → member x (sorted xs) ≡ member x xs
unfolding sorted
member-sorted x [] = refl
member-sorted x (s ∷ ts) = any-insert x s (sorted ts) ∙ ap (λ b. (s == x) || b) (member-sorted x ts)

-- A bridge publishes its offering: the gateway reads its frame as a register of this one model, and
-- if the core answers with names, echoes them sorted in one frame and goes on; the bridge takes
-- that frame as its registration exactly if its offering is among the names.
pub bridge-registers :
    {S : Type 0} (core : LlmFunduq S) (contract : Contract) (conn : Conn S) (s' : S)
    (offering : String) (names : List String)
    → (offering == "") ≡ false
    → core.register_llm_providers conn.core conn.id (offering ∷ []) null ≡ (ok names, s')
    → (echo : Dict) × (read_message core contract (text (some (obj (register_frame offering)))) conn
        ≡ record conn { core = s'; link = put_frame echo conn.link })
      × (check_registered offering echo
          ≡ (if member offering names then go tt else stop runtime_error))
unfolding read_message parse_frame kind_of register_frame register_models after_register
    check_registered
bridge-registers core contract conn s' offering names given accepts = (
  dict (("type", str "registered") ∷ ("names", arr (of_list (map str (sorted names)))) ∷ []),
  rw (given, accepts),
  rw
      (
        to_list-of_list (map str (sorted names)),
        any-member offering (sorted names),
        member-sorted offering names,
      )
      (elim (Bool-cases (member offering names)) [
        | inl is ↦ rw is refl
        | inr other ↦ rw other refl
      ]),
)
