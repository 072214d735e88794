-- ===== src/Tests/Awx.antt =====
-- AWX's answers and the caches at concrete inputs.
use ansible_supervisor_servi.Prelude.{keep, List}
use ansible_supervisor_servi.Prelude.{
  ℕ, String, ◌≡◌, refl, Bool, true, false, eq_iff, arith, some, [], ◌∷◌, all, ◌==◌, trim_space,
  insert,
}
use ansible_supervisor_servi.Errors.{ok}
use ansible_supervisor_servi.Exec.{Exec}
use ansible_supervisor_servi.Awx.{Host, Template, TemplateRef, Client, Connection}
use ansible_supervisor_servi.Awx.Lookup.{
  TemplateResult, find_template, choose_template, find_template_of, resolve_template, HostPage,
  list_owned_hosts, list_pages, collect_owned,
}
use ansible_supervisor_servi.Awx.Lookup.Trusted.{
  count_named, gives_result, template_alone, owned_entry, owned_only,
}
use ansible_supervisor_servi.Caches.{
  Caching, connection_key, template_cache_key, resolve_template_cached, resolve_template_for_launch,
}
use ansible_supervisor_servi.Caches.Apart.{
  good_outcome, value_at, all_good, held_under, request_key, cache_apart, launch_reads_awx,
}
use ansible_supervisor_servi.Tests.RunWorld.{connection_awx}

abbrev site : TemplateResult
site = record {
  id = 3;
  name = "site";
  inventory = some 2;
  ask_limit_on_launch = true;
  ask_variables_on_launch = true;
}

template_alone_example :
    gives_result (find_template "job template" "site" (ok (site ∷ record site { name = "s" } ∷ [])))
    ≡ (count_named "site" (site ∷ record site { name = "s" } ∷ []) == 1)
template_alone_example =
    template_alone "job template" "site" (site ∷ record site { name = "s" } ∷ [])

abbrev mine : Host
mine = record { id = 1; name = "a"; description = "m\n"; variables = "" }

abbrev page : String → Exec ℕ HostPage
page path n =
    (ok (record { next = ""; results = mine ∷ record mine { description = "x" } ∷ [] }), n)

owned_only_example : all (owned_entry "m") (("a", mine) ∷ []) ≡ true
unfolding list_owned_hosts list_pages collect_owned insert trim_space
owned_only_example = owned_only page "m" "/hosts/" (("a", mine) ∷ []) 0 refl

abbrev client : Client
client = record { base_url = "https://awx"; base_path = "/api/v2" }

abbrev ref : TemplateRef
ref = record { name = "site"; type = "JobTemplate" }

abbrev template : Template
template = record {
  id = 3;
  inventory = some 2;
  ask_limit_on_launch = true;
  ask_variables_on_launch = true;
}

abbrev listed : Client → Bool → String → Exec ℕ (List TemplateResult)
listed c workflow name n = (ok (site ∷ []), n)

abbrev good : String → Template → Bool
good k t = t.id == 3

-- A fresh entry, the clock is at 5.
abbrev caching : Caching ℕ Template
caching = record {
  world = 5;
  cache = ("ns/awx/1/JobTemplate/site", record { value = template; expires = 9 }) ∷ [];
}

abbrev newer : Connection
newer = record connection_awx { resource_version = "2" }

cache_apart_example :
    (good_outcome good (request_key connection_awx ref) (
        resolve_template_cached
          (λ n. n)
          (λ n. n)
          listed
          client
          (connection_key connection_awx)
          ref
          caching)
      ≡ true)
    × (all_good
          (held_under (λ t. false) (request_key newer ref))
          (resolve_template_cached
            (λ n. n)
            (λ n. n)
            listed
            client
            (connection_key connection_awx)
            ref
            caching).1.cache
        ≡ true)
unfolding template_cache_key connection_key
cache_apart_example =
    cache_apart (λ n. n) (λ n. n) listed good (λ t. false) client connection_awx newer ref ref
      caching
      (λ w t e. unfold resolve_template find_template_of find_template choose_template keep in cc)
      refl refl refl (λ same. ground (arith, same.2, eq_iff "1" "2")) refl

launch_reads_awx_example :
    ((resolve_template_for_launch (λ n. n) (λ n. n) listed client "ns/awx/1" ref caching).0
      ≡ ok template)
    × (value_at
          (template_cache_key "ns/awx/1" ref)
          (resolve_template_for_launch
            (λ n. n)
            (λ n. n)
            listed
            client
            "ns/awx/1"
            ref
            caching).1.cache
        ≡ some template)
unfolding resolve_template find_template_of find_template choose_template keep
launch_reads_awx_example = launch_reads_awx (λ n. n) (λ n. n) listed client "ns/awx/1" ref caching
