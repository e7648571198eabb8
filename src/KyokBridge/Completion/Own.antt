-- ===== src/KyokBridge/Completion/Own.antt =====
-- The frames that answer a request all carry its id.
use funduq_server.Prelude.{String, Bool, ◌≡◌, refl, List, [], ◌∷◌, ◌++◌, map, All, ◌==◌}
use funduq_server.Json.{Dict, get}
use funduq_server.Funduq.{Validation, valid, invalid}
use funduq_server.WsCommon.{is_type}
use funduq_server.KyokBridge.Completion.{
  Stream, Ending, finished, refuses, fails, serve_one, answer_valid, chunk_frame, ending_frame,
  payload,
}

-- The frame carries this request's id.
abbrev pub is_for : String → Dict → Bool
is_for id frame = is_type id (get "requestId" frame)

-- They are of the request `own`: asked for any id, each says whether it is that one.
abbrev pub AllOf : String → String → List Dict → Type 0
AllOf own id frames = All (λ f. is_for id f ≡ (own == id)) frames

ending_frame-is_for : (own id : String) (e : Ending) → is_for id (ending_frame own e) ≡ (own == id)
unfolding ending_frame
ending_frame-is_for own id finished = refl
ending_frame-is_for own id (refuses d) = refl
ending_frame-is_for own id (fails m) = refl

chunks-AllOf :
    (own id : String) (chunks last : List Dict)
    → AllOf own id last
    → AllOf own id (map (chunk_frame own) chunks ++ last)
chunks-AllOf own id [] last h = h
chunks-AllOf own id (c ∷ chunks) last h = (refl, chunks-AllOf own id chunks last h)

module _ {Delivered : Type 0} (validate : Dict → Validation Delivered)
    (handler : Delivered → Stream) where
  answer_valid-AllOf :
      (own id : String) (v : Validation Delivered)
      → AllOf own id (answer_valid validate handler own v)
  unfolding answer_valid
  answer_valid-AllOf own id (invalid e) = (refl, tt)
  answer_valid-AllOf own id (valid delivered) =
      chunks-AllOf own id (handler delivered).chunks
        (ending_frame own (handler delivered).ending ∷ [])
        (ending_frame-is_for own id (handler delivered).ending, tt)

  pub serve_one-AllOf :
      (own id : String) (frame : Dict) → AllOf own id (serve_one validate handler own frame)
  unfolding serve_one
  serve_one-AllOf own id frame = answer_valid-AllOf own id (validate (payload frame))
