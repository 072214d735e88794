-- ===== src/Run/Hosts/Recorded.antt =====
-- What recordRunHost keeps, over all the passes of a run.
use mathlib.Core.List.{append_assoc, append-nil}
use ansible_supervisor_servi.Prelude.{
  ℕ, String, ◌≡◌, refl, sym, ap, ◌∙◌, Bool, true, false, not, ◌&&◌, ◌||◌, List, [], ◌∷◌, ◌++◌, map,
  arith, any, ◌is◌, ◌==◌, eq_iff, if◌then◌else◌, join,
}
use ansible_supervisor_servi.Run.Model.{RunHostStatus}
use ansible_supervisor_servi.Run.Hosts.{record_run_host, run_limit}

-- The loop of launchRun that records its targets one after another.
unfoldable pub record_all : List RunHostStatus → List RunHostStatus → List RunHostStatus
record_all hosts [] = hosts
record_all hosts (h ∷ hs) = record_all (record_run_host hosts h) hs

abbrev pub Key : Type 0
Key = String × ℕ

abbrev pub key : RunHostStatus → Key
key h = (h.name, h.awx_inventory_id)

abbrev pub keys : List RunHostStatus → List Key
keys [] = []
keys (h ∷ hs) = key h ∷ keys hs

abbrev pub same_key : Key → Key → Bool
same_key (a, i) (b, j) = (a is b) && (i == j)

unfoldable pub has_key : Key → List Key → Bool
has_key k ks = any (λ j. same_key j k) ks

-- No key stands twice in the list.
abbrev pub distinct : List Key → Bool
distinct [] = true
distinct (k ∷ ks) = not (has_key k ks) && distinct ks

unfoldable add_all : List Key → List Key → List Key
add_all ks [] = ks
add_all ks (j ∷ js) = add_all (if has_key j ks then ks else ks ++ j ∷ []) js

keys-record_run_host :
    (hosts : List RunHostStatus) (h : RunHostStatus)
    → keys (record_run_host hosts h)
      ≡ (if has_key (key h) (keys hosts) then keys hosts else keys hosts ++ key h ∷ [])
unfolding record_run_host has_key
keys-record_run_host [] h = refl
keys-record_run_host (x ∷ xs) h = ground (arith, keys-record_run_host xs h, eq_iff x.name h.name)

keys-record_all :
    (hosts hs : List RunHostStatus) → keys (record_all hosts hs) ≡ add_all (keys hosts) (keys hs)
unfolding record_all add_all
keys-record_all hosts [] = refl
keys-record_all hosts (h ∷ hs) =
    rw (keys-record_all (record_run_host hosts h) hs, keys-record_run_host hosts h)

has_key-append :
    (k : Key) (xs ys : List Key) → has_key k (xs ++ ys) ≡ (has_key k xs || has_key k ys)
unfolding has_key
has_key-append k [] ys = refl
has_key-append k (x ∷ xs) ys = ground (arith, has_key-append k xs ys)

has_key_self : (k : Key) (ks : List Key) → has_key k (k ∷ ks) ≡ true
unfolding has_key
has_key_self (a, i) ks = ground (arith, eq_iff a a)

same_key_comm : (j k : Key) → same_key j k ≡ same_key k j
same_key_comm (a, i) (b, j) = ground (arith, eq_iff a b, eq_iff b a)

add_all_present : (a xs ys : List Key) → add_all (a ++ xs) (xs ++ ys) ≡ add_all (a ++ xs) ys
unfolding add_all
add_all_present a [] ys = refl
add_all_present a (x ∷ xs) ys = ground (
  arith,
  has_key-append x a (x ∷ xs),
  has_key_self x xs,
  append_assoc a (x ∷ []) xs,
  add_all_present (a ++ x ∷ []) xs ys,
)

distinct-middle :
    (ks ys : List Key) (y : Key) → distinct (ks ++ y ∷ ys) ≡ true → has_key y ks ≡ false
unfolding has_key
distinct-middle [] ys y h = refl
distinct-middle (k ∷ ks) ys y h =
    ground (arith, distinct-middle ks ys y, has_key-append k ks (y ∷ ys), same_key_comm k y)

add_all_fresh : (ks ys : List Key) → distinct (ks ++ ys) ≡ true → add_all ks ys ≡ ks ++ ys
unfolding add_all
add_all_fresh ks [] h = sym (append-nil ks)
add_all_fresh ks (y ∷ ys) h = ground (
  arith,
  distinct-middle ks ys y h,
  append_assoc ks (y ∷ []) ys,
  add_all_fresh (ks ++ y ∷ []) ys (rw append_assoc h),
)

names-keys :
    (hs : List RunHostStatus)
    → map (λ (h : RunHostStatus). h.name) hs ≡ map (λ (k : Key). k.0) (keys hs)
names-keys [] = refl
names-keys (h ∷ hs) = ap (λ t. h.name ∷ t) (names-keys hs)

keys-append : (xs ys : List RunHostStatus) → keys (xs ++ ys) ≡ keys xs ++ keys ys
keys-append [] ys = refl
keys-append (x ∷ xs) ys = ap (λ t. key x ∷ t) (keys-append xs ys)

-- The second and later passes go on from what the first have recorded.
keys_retry :
    (hosts done rest : List RunHostStatus)
    → keys hosts ≡ keys done
    → distinct (keys (done ++ rest)) ≡ true
    → keys (record_all hosts (done ++ rest)) ≡ keys (done ++ rest)
keys_retry hosts done rest same fresh =
    keys-record_all hosts (done ++ rest)
    ∙ rw (same, keys-append)
        (add_all_present [] (keys done) (keys rest)
          ∙ add_all_fresh (keys done) (keys rest) (rw keys-append at fresh))

-- A retry records no host twice. Where an earlier pass got as far as the targets `done` and a later
-- pass goes through all of them, `done` and then `rest`, no two under one identity, the limit that
-- runLimit reconstructs from status is that of the targets, each once and in their order.
pub run_limit_retry :
    (hosts done rest : List RunHostStatus)
    → keys hosts ≡ keys done
    → distinct (keys (done ++ rest)) ≡ true
    → run_limit (record_all hosts (done ++ rest)) ≡ run_limit (done ++ rest)
unfolding run_limit
run_limit_retry hosts done rest same fresh = ap (join ",") (
    names-keys (record_all hosts (done ++ rest))
    ∙ ap (map (λ (k : Key). k.0)) (keys_retry hosts done rest same fresh)
    ∙ sym (names-keys (done ++ rest)))

created_kept_once :
    (hosts : List RunHostStatus) (h : RunHostStatus) (n : String) (i : ℕ)
    → any (λ (x : RunHostStatus). same_key (key x) (n, i) && x.awx_host_created) hosts ≡ true
    → any
        (λ (x : RunHostStatus). same_key (key x) (n, i) && x.awx_host_created)
        (record_run_host hosts h)
      ≡ true
unfolding record_run_host
created_kept_once [] h n i e = cc
created_kept_once (x ∷ xs) h n i e =
    ground
      (arith, created_kept_once xs h n i, eq_iff x.name h.name, eq_iff x.name n, eq_iff h.name n)

-- Ownership is never lost: once a host is filed as created by the run, no later record of the same
-- host, adopted or not, takes that back.
pub created_kept :
    (hosts hs : List RunHostStatus) (n : String) (i : ℕ)
    → any (λ (x : RunHostStatus). same_key (key x) (n, i) && x.awx_host_created) hosts ≡ true
    → any
        (λ (x : RunHostStatus). same_key (key x) (n, i) && x.awx_host_created)
        (record_all hosts hs)
      ≡ true
unfolding record_all
created_kept hosts [] n i h = h
created_kept hosts (x ∷ xs) n i h =
    created_kept (record_run_host hosts x) xs n i (created_kept_once hosts x n i h)
