-- ===== src/Reads.antt =====
-- souk_server/reads.py: who may read the record. The function awaits twice; `at 0` and `at 1` are
-- the core's states at the two reads, between which other tasks may run.
pub mod Rule
use funduq_server.Prelude.{ℕ, String, Bool, true, false, Option, none, some, List, member}
use funduq_server.Funduq.{Funduq, Thread}

abbrev allowed : String → Option (List String) → Bool
allowed key none = true
allowed key (some parties) = member key parties

abbrev allowed_to : Option String → Option (List String) → Bool
allowed_to none none = true
allowed_to none (some parties) = false
allowed_to (some key) parties = allowed key parties

if_found : Option Thread → Bool → Bool
if_found none b = false
if_found (some _) b = b

unfoldable pub may_read : {S : Type 0} → Funduq S → (ℕ → S) → String → Option String → Bool
unfolding if_found
may_read core at thread_id key =
    if_found (core.get_thread (at 0) thread_id) (allowed_to key (core.parties_of (at 1) thread_id))
