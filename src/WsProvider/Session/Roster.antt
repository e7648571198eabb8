-- ===== src/WsProvider/Session/Roster.antt =====
-- The roster of the link, and the one that the frames of a session have told the provider.
use funduq_server.Prelude.{
  ℕ, String, false, ◌≡◌, refl, ◌∙◌, Option, none, some, List, [], ◌∷◌, All, Result, ok, raise,
  Bool-cases, inl, inr, arith,
}
use funduq_server.Json.{Dict, lookup, merge, dict, str}
use funduq_server.Json.Laws.{lookup-merge_left}
use funduq_server.Funduq.{Funduq, Contract, Connect}
use funduq_server.WsCommon.{
  Message, close_frame, policy_violation, receive_hello, Hello, proceed, refuse, gone, raised,
}
use funduq_server.WsProvider.Link.{deliver}
use funduq_server.WsProvider.Hello.{read_hello}
use funduq_server.WsProvider.Query.{answer_query}
use funduq_server.WsProvider.Query.Access.{Reply, answer_query-Reply}
use funduq_server.WsProvider.Socket.{Conn}
use funduq_server.WsProvider.Socket.Roster.{
  told, told-IsSilent, IsSilent, IsTold, put-IsTold, read_message-IsTold,
}
use funduq_server.WsProvider.Session.{
  Event, receive, query_ends, watcher_wakes, core_delivers, core_cancels, core_changes, opened,
  open_socket, after_hello, attach, after_attach, task_at, remove_at, watch, reply_query, end_query,
  step, serve, is_running, asks_close, lost_message,
}

-- The dump of a run has no key `type`: it is the frame's own.
abbrev pub IsEnvelope : {S : Type 0} → Event S → Type 0
IsEnvelope (core_delivers run) = lookup "type" run ≡ none
IsEnvelope _ = Unit

Reply-IsSilent :
    {S : Type 0} {core : Funduq S} {contract : Contract} {at : ℕ → S} {key : String}
    {parsed reply : Dict}
    → Reply core contract at key parsed reply
    → IsSilent reply
Reply-IsSilent (Reply.no_id i e) = rw e (refl, refl)
Reply-IsSilent (Reply.unknown q i m e) = rw e (refl, refl)
Reply-IsSilent (Reply.no_thread q params asks t e) = rw e (refl, refl)
Reply-IsSilent (Reply.no_limit q params asks l e) = rw e (refl, refl)
Reply-IsSilent (Reply.refused q params id asks cannot e) = rw e (refl, refl)
Reply-IsSilent (Reply.answered q params id asks can e) = rw e (refl, refl)

module _ {S : Type 0} (core : Funduq S) (contract : Contract) where
  deliver-IsTold :
      (run : Dict) (conn : Conn S)
      → lookup "type" run ≡ none
      → IsTold conn
      → IsTold (record conn { link = deliver run conn.link })
  unfolding deliver
  deliver-IsTold run conn h t =
      told-IsSilent conn.link.outbound (merge (dict (("type", str "run") ∷ [])) run)
        (rw (lookup-merge_left "type" (dict (("type", str "run") ∷ [])) run h) (refl, refl))
      ∙ t

  reply_query-IsTold :
      (at : ℕ → S) (frame : Dict) (conn : Conn S) (r : Result Dict)
      → answer_query core contract at conn.link.public_key frame ≡ r
      → IsTold conn
      → IsTold (reply_query core contract r conn)
  unfolding reply_query
  reply_query-IsTold at frame conn (ok reply) h t =
      put-IsTold reply conn
        (Reply-IsSilent (answer_query-Reply core contract at conn.link.public_key frame reply h)) t
  reply_query-IsTold at frame conn (raise e) h t = t

  end_query-IsTold :
      (at : ℕ → S) (conn : Conn S) (frame : Option Dict)
      → IsTold conn
      → IsTold (end_query core contract at conn frame)
  unfolding end_query
  end_query-IsTold at conn none t = t
  end_query-IsTold at conn (some frame) t = reply_query-IsTold at frame conn _ refl t

  watch-IsTold : (at : ℕ → S) (conn : Conn S) → IsTold conn → IsTold (watch core contract at conn)
  unfolding watch
  watch-IsTold at conn t = elim (Bool-cases (asks_close core contract at conn)) [
    | inl asked ↦ rw asked (
        put-IsTold (close_frame policy_violation lost_message) (record conn { watching = false })
          (refl, refl) t)
    | inr idle ↦ rw idle t
  ]

  step-IsTold :
      (e : Event S) (conn : Conn S)
      → IsEnvelope e
      → IsTold conn
      → IsTold (step core contract e conn)
  unfolding step
  step-IsTold (receive message) conn h t = read_message-IsTold core contract message conn t
  step-IsTold (query_ends n at) conn h t =
      end_query-IsTold at (record conn { tasks = remove_at n conn.tasks }) (task_at n conn.tasks) t
  step-IsTold (watcher_wakes at) conn h t = watch-IsTold at conn t
  step-IsTold (core_delivers run) conn h t = deliver-IsTold run conn h t
  step-IsTold (core_cancels run_id) conn h t = put-IsTold _ conn (refl, refl) t
  step-IsTold (core_changes s) conn h t = t

  serve-IsTold :
      (es : List (Event S)) (conn : Conn S)
      → All IsEnvelope es
      → IsTold conn
      → IsTold (serve core contract es conn)
  unfolding serve
  serve-IsTold [] conn h t = t
  serve-IsTold (e ∷ es) conn h t = elim (Bool-cases (is_running conn.loop)) [
    | inl run ↦ rw run (serve-IsTold es (step core contract e conn) h.1 (step-IsTold e conn h.0 t))
    | inr stop ↦ rw stop t
  ]

  attach-IsTold :
      (id : ℕ) (hello : Connect) (r : Result String × S) (conn : Conn S)
      → after_attach core contract id hello r ≡ opened conn
      → IsTold conn
  unfolding after_attach
  attach-IsTold id hello (ok answer, s) conn h = ground arith
  attach-IsTold id hello (raise e, s) conn h = ground arith

  hello-IsTold :
      (id : ℕ) (s : S) (hello : Hello) (conn : Conn S)
      → after_hello core contract id s hello ≡ opened conn
      → IsTold conn
  unfolding after_hello attach
  hello-IsTold id s (refuse reason) conn h = cc
  hello-IsTold id s gone conn h = cc
  hello-IsTold id s (raised e) conn h = cc
  hello-IsTold id s (proceed hello) conn h =
      (elim (read_hello contract hello)
          as (λ r. attach core contract id s r ≡ opened conn → IsTold conn) [
            | inl problem ↦ λ e. cc
            | inr connect ↦ λ e. attach-IsTold id connect (core.attach_provider s id connect) conn e
          ])
        h

  open-IsTold :
      (id : ℕ) (s : S) (first : Option Message) (conn : Conn S)
      → open_socket core contract id s first ≡ opened conn
      → IsTold conn
  unfolding open_socket
  open-IsTold id s first conn h = hello-IsTold id s (receive_hello first) conn h

  -- After any events on a socket that opened, the names that the link holds as registered are the
  -- names that the frames put so far have told the provider: those of the last `registered` frame
  -- without those of the later `deleted` frames. The runs that the core hands over have no key
  -- `type` of their own.
  pub serve-roster :
      (id : ℕ) (s : S) (first : Option Message) (conn : Conn S) (es : List (Event S))
      → open_socket core contract id s first ≡ opened conn
      → All IsEnvelope es
      → told (serve core contract es conn).link.outbound
        ≡ (serve core contract es conn).link.registered_names
  serve-roster id s first conn es h envelopes =
      serve-IsTold es conn envelopes (open-IsTold id s first conn h)
