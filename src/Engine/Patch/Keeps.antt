-- ===== src/Engine/Patch/Keeps.antt =====
-- Invariants of the retrying writes: what each single write keeps, the loop keeps.
use ansible_supervisor_servi.Prelude.{
  ℕ, zero, suc, String, ◌≡◌, refl, Bool, true, List, [], Text, arith, Bool-cases, ◌||◌, ◌⊎◌, inl,
  inr,
}
use ansible_supervisor_servi.Errors.{
  Error, Result, ok, err, errorf, is_not_found, is_conflict, is_already_exists,
}
use ansible_supervisor_servi.Exec.{Exec, continue, succeed}
use ansible_supervisor_servi.Objects.{Object}
use ansible_supervisor_servi.Engine.Patch.{
  after_answer, patch_status_from, patch_status, patch_finalizer_from, patch_finalizer,
  max_status_retries,
}

pub Result-cases :
    {A : Type 0} (r : Result A) → ((a : A) × (r ≡ ok a)) ⊎ ((e : Error) × (r ≡ err e))
Result-cases (ok a) = inl (a, refl)
Result-cases (err e) = inr (e, refl)

-- What every single apply keeps holds after the loop.
module _ {S : Type 0} (P : S → Type 0) (apply : Exec S (Unit {0})) where
  pub patch_status_from_invariant :
      ((s : S) → P s → P (apply s).1)
      → (n : ℕ) (who : Text) (last : Error) (s : S) → P s
      → P (patch_status_from n who apply last s).1
  unfolding patch_status_from
  patch_status_from_invariant step zero who last s h = h
  patch_status_from_invariant step (suc n) who last s h =
      settle (apply s) (step s h) (λ e t. patch_status_from_invariant step n who e t)
    where
      settle :
          (r : Result (Unit {0}) × S)
          → P r.1
          → ((e : Error) (t : S) → P t → P (patch_status_from n who apply e t).1)
          → P (continue (succeed r) (after_answer who (patch_status_from n who apply))).1
      settle (ok a, t) k rest = k
      settle (err e, t) k rest = elim (Bool-cases (is_not_found e)) [
        | inl gone ↦ rw gone k
        | inr there ↦ rw there (elim (Bool-cases (is_conflict e || is_already_exists e)) [
          | inl again ↦ rw again (rest e t k)
          | inr final ↦ rw final k
        ])
      ]

  pub patch_status_invariant :
      ((s : S) → P s → P (apply s).1) → (who : Text) (s : S) → P s → P (patch_status who apply s).1
  unfolding patch_status
  patch_status_invariant step who s h =
      patch_status_from_invariant step max_status_retries who (errorf []) s h

module _ {S : Type 0} (p : S → Bool) (apply : Exec S (Unit {0})) where
  pub patch_status-keeps :
      ((s : S) → p s ≡ true → p (apply s).1 ≡ true)
      → (who : Text) (s : S) → p s ≡ true
      → p (patch_status who apply s).1 ≡ true
  patch_status-keeps step = patch_status_invariant (λ s. p s ≡ true) apply step

-- What patchStatus takes for an answer: that the status is there, or that its object is not.
abbrev pub is_final : Result (Unit {0}) → Bool
is_final (ok _) = true
is_final (err e) = is_not_found e

-- What a single final apply establishes holds after a loop that succeeds.
module _ {S : Type 0} (q : S → Bool) (apply : Exec S (Unit {0})) where
  patch_status_from-settles :
      ((s : S) → is_final (apply s).0 ≡ true → q (apply s).1 ≡ true)
      → (n : ℕ) (who : Text) (last : Error) (s : S)
      → (patch_status_from n who apply last s).0 ≡ ok tt
      → q (patch_status_from n who apply last s).1 ≡ true
  unfolding patch_status_from
  patch_status_from-settles final zero who last s h = ground (arith, h)
  patch_status_from-settles final (suc n) who last s h = elim (Result-cases (apply s).0) [
    | inl (a, e) ↦ ground (arith, h, e, final s)
    | inr (x, e) ↦
        ground (arith, h, e, final s, patch_status_from-settles final n who x (apply s).1)
  ]

  pub patch_status-settles :
      ((s : S) → is_final (apply s).0 ≡ true → q (apply s).1 ≡ true)
      → (who : Text) (s : S) → (patch_status who apply s).0 ≡ ok tt
      → q (patch_status who apply s).1 ≡ true
  unfolding patch_status
  patch_status-settles final who s h =
      patch_status_from-settles final max_status_retries who (errorf []) s h

module _ {S B : Type 0} (p q : S → Bool) (patch : Object B → List String → Exec S (Unit {0}))
    (get : String → String → Exec S (Object B)) (mutate : List String → List String) where
  -- A single patch keeps `p`, and establishes `q` where it is accepted; a read keeps `p`.
  pub record PatchLaws : Type 0 where
    pub patched : (o : Object B) (s : S) → p s ≡ true → p (patch o (mutate o.finalizers) s).1 ≡ true
    pub accepted :
        (o : Object B) (s : S)
        → (patch o (mutate o.finalizers) s).0 ≡ ok tt
        → q (patch o (mutate o.finalizers) s).1 ≡ true
    pub read : (ns n : String) (s : S) → p s ≡ true → p (get ns n s).1 ≡ true

  Outcome : Result (Unit {0}) × S → Type 0
  Outcome r = (p (r.1) ≡ true) × (r.0 ≡ ok tt → q (r.1) ≡ true)

  patch_finalizer_from-keeps :
      PatchLaws
      → (n : ℕ) (o : Object B) (s : S) → p s ≡ true
      → Outcome (patch_finalizer_from n patch get o mutate s)
  unfolding patch_finalizer_from Outcome
  patch_finalizer_from-keeps laws zero o s h = ground (arith, laws.patched o s h, laws.accepted o s)
  patch_finalizer_from-keeps laws (suc n) o s h =
      elim (Result-cases (get o.namespace o.name (patch o (mutate o.finalizers) s).1).0) [
        | inl (fresh, e) ↦ ground (
          arith,
          e,
          laws.patched o s h,
          laws.accepted o s,
          laws.read o.namespace o.name (patch o (mutate o.finalizers) s).1,
          patch_finalizer_from-keeps laws n fresh
              (get o.namespace o.name (patch o (mutate o.finalizers) s).1).1
              (laws.read o.namespace o.name (patch o (mutate o.finalizers) s).1
                (laws.patched o s h)),
        )
        | inr (x, e) ↦ ground (
          arith,
          e,
          laws.patched o s h,
          laws.accepted o s,
          laws.read o.namespace o.name (patch o (mutate o.finalizers) s).1,
        )
      ]

  pub patch_finalizer-keeps :
      PatchLaws
      → (o : Object B) (s : S) → p s ≡ true
      → (p (patch_finalizer patch get o mutate s).1 ≡ true)
        × ((patch_finalizer patch get o mutate s).0 ≡ ok tt
            → q (patch_finalizer patch get o mutate s).1 ≡ true)
  unfolding patch_finalizer Outcome
  patch_finalizer-keeps laws o s h = patch_finalizer_from-keeps laws 1 o s h
