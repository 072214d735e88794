-- ===== src/Exec/Same.antt =====
-- Functions that leave a view of the state as it is: the rules for the ways they are put together.
use ansible_supervisor_servi.Prelude.{◌≡◌}
use ansible_supervisor_servi.Exec.{Exec}

module _ {S V : Type 0} (view : S → V) where
  -- The view after m, from s, is that of s.
  abbrev pub Same : {A : Type 0} → Exec S A → S → Type 0
  Same m s = view (m s).1 ≡ view s
