-- ===== src/Engine/Patch.antt =====
-- The two writes of controller/engine.go that retry: patchStatus and patchFinalizer.
pub mod Keeps
use ansible_supervisor_servi.Prelude.{
  ℕ, zero, suc, String, ◌||◌, List, [], ◌∷◌, ◌++◌, Text, lit, shown, decimal, if◌then◌else◌,
}
use ansible_supervisor_servi.Errors.{
  Error, Result, ok, err, wrap, errorf, is_not_found, is_conflict, is_already_exists,
}
use ansible_supervisor_servi.Exec.{Exec, pure, raise, attempt, ◌>>=◌, labelled}
use ansible_supervisor_servi.Objects.{Object}

abbrev pub label : {B : Type 0} → Object B → Text
label o = shown o.namespace ∷ lit "/" ∷ shown o.name ∷ []

abbrev pub max_status_retries : ℕ
max_status_retries = 5

abbrev attempts_note : Text
attempts_note = lit " after " ∷ decimal max_status_retries ∷ lit " attempts" ∷ []

module _ {S : Type 0} where
  -- What a round does with its answer; `again` is the next round, and is given the new lastErr.
  abbrev pub after_answer :
      Text → (Error → Exec S (Unit {0})) → Result (Unit {0}) → Exec S (Unit {0})
  after_answer who again (ok _) = pure tt
  after_answer who again (err e) =
      if is_not_found e
      then pure tt
      else if is_conflict e || is_already_exists e
      then again e
      else raise (wrap (lit "failed to apply status for " ∷ who) e)

  -- The loop of patchStatus: `left` rounds are left, and `last` is lastErr. The pause between two
  -- rounds changes nothing that the loop reads.
  unfoldable pub patch_status_from : ℕ → Text → Exec S (Unit {0}) → Error → Exec S (Unit {0})
  patch_status_from zero who apply last =
      raise (wrap (lit "failed to apply status for " ∷ who ++ attempts_note) last)
  patch_status_from (suc left) who apply last =
      attempt apply >>= after_answer who (patch_status_from left who apply)

  -- `apply` is the server-side apply of this object's status under one field manager.
  unfoldable pub patch_status : Text → Exec S (Unit {0}) → Exec S (Unit {0})
  unfolding patch_status_from
  patch_status who apply = patch_status_from max_status_retries who apply (errorf [])

module _ {S B : Type 0} where
  -- The loop of patchFinalizer. `retries` is how many conflicts it may still answer by a fresh read.
  unfoldable pub patch_finalizer_from :
      ℕ
      → (Object B → List String → Exec S (Unit {0}))
      → (String → String → Exec S (Object B))
      → Object B
      → (List String → List String)
      → Exec S (Unit {0})
  patch_finalizer_from zero patch get target mutate =
      labelled (lit "patching finalizers on " ∷ label target)
        (patch target (mutate target.finalizers))
  patch_finalizer_from (suc retries) patch get target mutate = do
    r ← attempt (patch target (mutate target.finalizers))
    elim r [
      | ok _ ↦ pure tt
      | err e ↦
          let again =
            labelled
              (lit "re-reading " ∷ label target ++ lit " after a finalizer patch conflict" ∷ [])
              (get target.namespace target.name)
            >>= λ fresh. patch_finalizer_from retries patch get fresh mutate in
          if is_conflict e
          then again
          else raise (wrap (lit "patching finalizers on " ∷ label target) e)
    ]

  -- One retry: the second round returns its error whatever it is.
  unfoldable pub patch_finalizer :
      (Object B → List String → Exec S (Unit {0}))
      → (String → String → Exec S (Object B))
      → Object B
      → (List String → List String)
      → Exec S (Unit {0})
  unfolding patch_finalizer_from
  patch_finalizer = patch_finalizer_from 1
