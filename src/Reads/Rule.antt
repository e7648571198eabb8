-- ===== src/Reads/Rule.antt =====
-- The rule of reading, as a statement about the record.
use funduq_server.Prelude.{
  ℕ, String, true, ◌≡◌, ◌↔◌, Option, none, some, List, arith, IsIn, member_iff, Option-cases, inl,
  inr,
}
use funduq_server.Funduq.{Funduq, Thread}
use funduq_server.Reads.{may_read, allowed_to}

-- Who a reader is among the parties of a thread; `none` for the parties is a thread that nobody
-- bound, and `none` for the key is nobody.
abbrev pub IsParty : Option String → Option (List String) → Type 0
IsParty key none = Unit
IsParty none (some parties) = ⊥
IsParty (some key) (some parties) = IsIn key parties

-- The thread exists, and it is unbound or the reader is one of its parties.
pub record CanRead {S : Type 0} (core : Funduq S) (at : ℕ → S) (id : String) (key : Option String)
    : Type 0 where
  pub thread : Thread
  pub exists : core.get_thread (at 0) id ≡ some thread
  pub party : IsParty key (core.parties_of (at 1) id)

allowed_iff :
    (key : Option String) (parties : Option (List String))
    → (allowed_to key parties ≡ true) ↔ IsParty key parties
allowed_iff none none = ground arith
allowed_iff (some key) none = ground arith
allowed_iff none (some parties) = ground arith
allowed_iff (some key) (some parties) = member_iff key parties

module _ {S : Type 0} (core : Funduq S) (at : ℕ → S) (id : String) (key : Option String) where
  may_read_sound : may_read core at id key ≡ true → CanRead core at id key
  unfolding may_read
  may_read_sound h = elim (Option-cases (core.get_thread (at 0) id)) [
    | inl missing ↦ absurd (ground arith)
    | inr (t, found) ↦ record {
      thread = t;
      exists = found;
      party = (allowed_iff key (core.parties_of (at 1) id)).0 (rw found at h);
    }
  ]

  may_read_complete : CanRead core at id key → may_read core at id key ≡ true
  unfolding may_read
  may_read_complete h = rw (h.exists) ((allowed_iff key (core.parties_of (at 1) id)).1 h.party)

  -- `may_read` answers yes exactly to a reader of a thread that exists when it is looked up first
  -- and that, when its parties are read, is unbound or has the reader's key among them.
  pub may_read_iff : (may_read core at id key ≡ true) ↔ CanRead core at id key
  may_read_iff = (may_read_sound, may_read_complete)
