-- ===== src/WsProvider/Session/Wire.antt =====
-- What the writer puts on the wire of a session, and how a socket comes to be open.
use funduq_server.Prelude.{
  ℕ, String, false, ◌≡◌, refl, Option, none, some, List, [], ◌∷◌, ◌++◌, Result, ok, raise,
  Bool-cases, inl, inr, arith, ◌⊎◌,
}
use funduq_server.Json.{Dict, get, str, obj}
use funduq_server.Funduq.{Funduq, Contract, Connect}
use funduq_server.WsCommon.{
  Message, text, close_frame, policy_violation, receive_hello, Hello, proceed, refuse, gone, raised,
  Sent, send, write_loop, is_type, close_type,
}
use funduq_server.WsProvider.Link.{put_frame}
use funduq_server.WsProvider.Hello.{read_hello}
use funduq_server.WsProvider.Hello.Complete.{IsComplete, read_hello-IsComplete, proceed-first}
use funduq_server.WsProvider.Query.{answer_query}
use funduq_server.WsProvider.Socket.{Conn}
use funduq_server.WsProvider.Socket.Growth.{put-Grows, read_message-Grows}
use funduq_server.WsProvider.Session.{
  Event, receive, query_ends, watcher_wakes, core_delivers, core_cancels, core_changes, opened,
  welcome, open_socket, after_hello, attach, after_attach, task_at, remove_at, watch, reply_query,
  end_query, step, serve, is_running, asks_close, lost_message,
}

module _ {S : Type 0} {P : List Dict → Type 0} (core : Funduq S) (contract : Contract)
    (grow : (frames : List Dict) (frame : Dict) → P frames → P (frames ++ frame ∷ [])) where
  abbrev Holds : Conn S → Type 0
  Holds conn = P conn.link.outbound

  watch-Holds : (at : ℕ → S) (conn : Conn S) → Holds conn → Holds (watch core contract at conn)
  unfolding watch
  watch-Holds at conn h = elim (Bool-cases (asks_close core contract at conn)) [
    | inl asked ↦ rw asked (
        put-Grows grow (close_frame policy_violation lost_message)
          (record conn { watching = false }) h)
    | inr idle ↦ rw idle h
  ]

  reply_query-Holds :
      (r : Result Dict) (conn : Conn S) → Holds conn → Holds (reply_query core contract r conn)
  unfolding reply_query
  reply_query-Holds (ok reply) conn h = put-Grows grow reply conn h
  reply_query-Holds (raise e) conn h = h

  step-Holds : (e : Event S) (conn : Conn S) → Holds conn → Holds (step core contract e conn)
  unfolding step put_frame
  step-Holds (receive message) conn h = read_message-Grows grow core contract message conn h
  step-Holds (query_ends n at) conn h =
      ended (task_at n conn.tasks) (record conn { tasks = remove_at n conn.tasks }) h
    where
      ended :
          (o : Option Dict) (conn : Conn S) → Holds conn → Holds (end_query core contract at conn o)
      ended none conn h = h
      ended (some frame) conn h =
          reply_query-Holds (answer_query core contract at conn.link.public_key frame) conn h
  step-Holds (watcher_wakes at) conn h = watch-Holds at conn h
  step-Holds (core_delivers run) conn h = grow conn.link.outbound _ h
  step-Holds (core_cancels run_id) conn h = grow conn.link.outbound _ h
  step-Holds (core_changes s) conn h = h

  serve-Holds :
      (es : List (Event S)) (conn : Conn S) → Holds conn → Holds (serve core contract es conn)
  unfolding serve
  serve-Holds [] conn h = h
  serve-Holds (e ∷ es) conn h = elim (Bool-cases (is_running conn.loop)) [
    | inl run ↦ rw run (serve-Holds es (step core contract e conn) (step-Holds e conn h))
    | inr stop ↦ rw stop h
  ]

-- The queue begins with a frame.
abbrev Begins : Dict → List Dict → Type 0
Begins frame [] = ⊥
Begins frame (first ∷ rest) = first ≡ frame

Begins-append :
    (w : Dict) (frames : List Dict) (frame : Dict)
    → Begins w frames
    → Begins w (frames ++ frame ∷ [])
Begins-append w [] frame h = elim h [ ]
Begins-append w (first ∷ rest) frame h = h

-- The wire begins with a frame that was sent.
abbrev pub SentFirst : Dict → List Sent → Type 0
SentFirst frame [] = ⊥
SentFirst frame (first ∷ rest) = first ≡ send frame

write_loop-Begins :
    (frame : Dict) (frames : List Dict)
    → is_type close_type (get "type" frame) ≡ false
    → Begins frame frames
    → SentFirst frame (write_loop frames)
unfolding write_loop
write_loop-Begins frame [] h b = elim b [ ]
write_loop-Begins frame (first ∷ rest) h b = rw (b, h) refl

-- How a socket came to be open: a first message came in time, a JSON object of the type `hello`, it
-- carried all that the handshake wants, and the core accepted the proof with `answer`.
pub record Admitted {S : Type 0} (core : Funduq S) (contract : Contract) (id : ℕ) (s : S)
    (first : Option Message) : Type 0 where
  pub frame : Dict
  pub hello : Connect
  pub answer : String
  pub in_time : first ≡ some (text (some (obj frame)))
  pub greeting : get "type" frame ≡ str "hello"
  pub complete : IsComplete contract frame hello
  pub accepted : (core.attach_provider s id hello).0 ≡ ok answer

module _ {S : Type 0} (core : Funduq S) (contract : Contract) (id : ℕ) (s : S) where
  -- what is open once the core has answered
  abbrev Greets : Connect → Conn S → Type 0
  Greets hello conn =
      (answer : String) × ((core.attach_provider s id hello).0 ≡ ok answer)
      × Begins (welcome core.identity_public_key answer) conn.link.outbound

  attach-Greets :
      (hello : Connect) (r : Result String × S) (conn : Conn S)
      → core.attach_provider s id hello ≡ r
      → after_attach core contract id hello r ≡ opened conn
      → Greets hello conn
  unfolding after_attach
  attach-Greets hello (ok answer, s') conn e h = (answer, rw e refl, ground arith)
  attach-Greets hello (raise e, s') conn d h = absurd (ground arith)

  hello-Admitted :
      (first : Option Message) (o : Hello) (conn : Conn S)
      → receive_hello first ≡ o
      → after_hello core contract id s o ≡ opened conn
      → (a : Admitted core contract id s first) × Begins
          (welcome core.identity_public_key a.answer)
          conn.link.outbound
  unfolding after_hello
  hello-Admitted first (refuse reason) conn e h = absurd (cc)
  hello-Admitted first gone conn e h = absurd (cc)
  hello-Admitted first (raised e') conn e h = absurd (cc)
  hello-Admitted first (proceed frame) conn e h = go (read_hello contract frame) refl h
    where
      go :
          (r : String ⊎ Connect)
          → read_hello contract frame ≡ r
          → attach core contract id s r ≡ opened conn
          → (a : Admitted core contract id s first) × Begins
              (welcome core.identity_public_key a.answer)
              conn.link.outbound
      go (inl problem) c h = absurd (unfold attach in cc)
      go (inr hello) c h =
          let g = attach-Greets hello (core.attach_provider s id hello) conn refl h in
          (
            record {
              frame = frame;
              hello = hello;
              answer = g.0;
              in_time = (proceed-first first frame e).0;
              greeting = (proceed-first first frame e).1;
              complete = read_hello-IsComplete contract frame hello c;
              accepted = g.1;
            },
            g.2,
          )

-- A socket opens only to a first message that comes in time, is a JSON object of the type `hello`
-- and the wire's version, whose key, ticket, nonce and proof are texts that are not empty, and that
-- the contract and then the core accepted; and whatever events follow, the first frame on its wire
-- is the welcome with the core's key and the answer that the core gave to that hello.
pub open_socket-welcome :
    {S : Type 0} (core : Funduq S) (contract : Contract) (id : ℕ) (s : S) (first : Option Message)
    (conn : Conn S) (es : List (Event S))
    → open_socket core contract id s first ≡ opened conn
    → (a : Admitted core contract id s first) × SentFirst
        (welcome core.identity_public_key a.answer)
        (write_loop (serve core contract es conn).link.outbound)
unfolding open_socket
open_socket-welcome core contract id s first conn es h =
    let (a, begins) = hello-Admitted core contract id s first (receive_hello first) conn refl h in
    let w = welcome core.identity_public_key a.answer in
    (
      a,
      write_loop-Begins w (serve core contract es conn).link.outbound (unfold welcome in refl)
          (serve-Holds core contract (Begins-append w) es conn begins),
    )
