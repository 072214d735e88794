-- ===== src/Awx/Lookup/Trusted.antt =====
-- What the client takes from AWX's answers is what was asked for.
use ansible_supervisor_servi.Prelude.{
  ℕ, zero, suc, String, ◌≡◌, refl, Bool, true, false, ◌&&◌, List, [], ◌∷◌, arith, length, keep,
  insert, trim_space, all, eq_iff, inl, inr, Bool-cases, ◌==◌, ◌is◌, if◌then◌else◌,
}
use ansible_supervisor_servi.Errors.{Result, ok, err}
use ansible_supervisor_servi.Exec.{Exec}
use ansible_supervisor_servi.Awx.{Template, Host}
use ansible_supervisor_servi.Engine.Patch.Keeps.{Result-cases}
use ansible_supervisor_servi.Awx.Lookup.{
  TemplateResult, choose_template, find_template, HostPage, collect_owned, list_pages,
  list_owned_hosts, max_host_list_pages,
}

-- How many results have the name.
abbrev pub count_named : String → List TemplateResult → ℕ
count_named name [] = 0
count_named name (r ∷ rs) =
    if r.name is name then suc (count_named name rs) else count_named name rs

abbrev pub gives_result : Result Template → Bool
gives_result (ok t) = true
gives_result (err e) = false

abbrev pub same_template : Template → String → TemplateResult → Bool
same_template t name r = (r.name is name) && (r.id == t.id)

length-keep_named :
    (name : String) (rs : List TemplateResult)
    → length (keep (λ (r : TemplateResult). r.name is name) rs) ≡ count_named name rs
unfolding keep
length-keep_named name [] = refl
length-keep_named name (r ∷ rs) = ground (arith, length-keep_named name rs)

choose_one :
    (kind name : String) (rs : List TemplateResult)
    → gives_result (choose_template kind name rs) ≡ (length rs == 1)
unfolding choose_template
choose_one kind name [] = refl
choose_one kind name (r ∷ []) = refl
choose_one kind name (r ∷ (q ∷ rs)) = ground arith

-- A template is resolved just where exactly one of AWX's results has the name that was asked for,
-- whatever else AWX lists.
pub template_alone :
    (kind name : String) (rs : List TemplateResult)
    → gives_result (find_template kind name (ok rs)) ≡ (count_named name rs == 1)
unfolding find_template
template_alone kind name rs = ground (
  arith,
  length-keep_named name rs,
  choose_one kind name (keep (λ (r : TemplateResult). r.name is name) rs),
)

-- The entry is a host with the marker, under its own name.
abbrev pub owned_entry : String → String × Host → Bool
owned_entry marker p = (trim_space p.1.description is marker) && (p.1.name is p.0)

insert-owned :
    (marker : String) (h : Host) (owned : List (String × Host))
    → (trim_space h.description is marker) ≡ true
    → all (owned_entry marker) owned ≡ true
    → all (owned_entry marker) (insert h.name h owned) ≡ true
unfolding insert
insert-owned marker h [] e a = ground (arith, e, eq_iff h.name h.name)
insert-owned marker h (p ∷ ps) e a =
    ground (arith, e, a, eq_iff h.name h.name, insert-owned marker h ps e)

collect-owned :
    (marker : String) (hs : List Host) (owned : List (String × Host))
    → all (owned_entry marker) owned ≡ true
    → all (owned_entry marker) (collect_owned marker hs owned) ≡ true
unfolding collect_owned
collect-owned marker [] owned a = a
collect-owned marker (h ∷ hs) owned a = elim (Bool-cases (trim_space h.description is marker)) [
  | inl y ↦
      ground
        (arith, y, insert-owned marker h owned y a, collect-owned marker hs (insert h.name h owned))
  | inr n ↦ ground (arith, n, collect-owned marker hs owned a)
]

module _ {S : Type 0} (get_page : String → Exec S HostPage) where
  pages-owned :
      (n : ℕ) (marker path : String) (owned hs : List (String × Host)) (s : S)
      → all (owned_entry marker) owned ≡ true
      → (list_pages get_page n marker path owned s).0 ≡ ok hs
      → all (owned_entry marker) hs ≡ true
  unfolding list_pages
  pages-owned zero marker path owned hs s a e = ground (arith, a, e)
  pages-owned (suc n) marker path owned hs s a e = elim (Result-cases (get_page path s).0) [
    | inl (page, f) ↦ ground (
      arith,
      a,
      e,
      f,
      collect-owned marker page.results owned a,
      pages-owned n marker page.next (collect_owned marker page.results owned) hs
          (get_page path s).1,
    )
    | inr (x, f) ↦ ground (arith, a, e, f)
  ]

  -- Whatever pages AWX answers with, also where it ignores the filter, each entry of the result is a
  -- host that carries the marker, up to surrounding space, under the host's own name.
  pub owned_only :
      (marker path : String) (hs : List (String × Host)) (s : S)
      → (list_owned_hosts get_page marker path s).0 ≡ ok hs
      → all (owned_entry marker) hs ≡ true
  unfolding list_owned_hosts
  owned_only marker path hs s e = pages-owned max_host_list_pages marker path [] hs s refl e
