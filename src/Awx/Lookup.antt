-- ===== src/Awx/Lookup.antt =====
-- Answers of AWX that the client does not take on trust: findTemplate, findHostByName, jobIDFrom and
-- ListOwnedHosts of controller/awx_client.go.
pub mod Trusted
use ansible_supervisor_servi.Prelude.{
  ℕ, zero, suc, String, Bool, true, false, not, ◌&&◌, Option, none, some, List, [], ◌∷◌, ◌++◌, Text,
  lit, quoted, decimal, length, keep, insert, trim_space, starts_with, ◌==◌, ◌is◌, if◌then◌else◌,
}
use ansible_supervisor_servi.Errors.{Error, Result, ok, err, errorf, wrap, permanent_config}
use ansible_supervisor_servi.Exec.{Exec, pure, raise, lift, attempt, labelled, ◌>>=◌}
use ansible_supervisor_servi.Awx.{
  Template, TemplateRef, Host, template_type_job, template_type_workflow,
}

-- templateResult
pub record TemplateResult : Type 0 where
  pub id : ℕ
  pub name : String
  pub inventory : Option ℕ
  pub ask_limit_on_launch : Bool
  pub ask_variables_on_launch : Bool

abbrev pub template_of : TemplateResult → Template
template_of r = record {
  id = r.id;
  inventory = r.inventory;
  ask_limit_on_launch = r.ask_limit_on_launch;
  ask_variables_on_launch = r.ask_variables_on_launch;
}

abbrev join_ids : List TemplateResult → Text
join_ids [] = []
join_ids (r ∷ []) = decimal r.id ∷ []
join_ids (r ∷ (q ∷ rs)) = decimal r.id ∷ lit ", " ∷ join_ids (q ∷ rs)

-- findTemplate after the request: the names are compared again, and one result must be left.
unfoldable pub choose_template : String → String → List TemplateResult → Result Template
choose_template kind name [] =
    err (wrap (lit kind ∷ lit " " ∷ quoted name ∷ lit " not found" ∷ []) permanent_config)
choose_template kind name (r ∷ []) = ok (template_of r)
choose_template kind name (r ∷ (q ∷ rs)) = err (
    wrap
      (lit kind
          ∷ lit " "
          ∷ quoted name
          ∷ lit " is ambiguous: "
          ∷ decimal (length (r ∷ (q ∷ rs)))
          ∷ lit " templates share that name (IDs "
          ∷ join_ids (r ∷ (q ∷ rs))
        ++ lit "), most likely in different AWX organizations. Rename one, or point this "
          ∷ lit "binding at an instance where the name is unique"
          ∷ [])
      permanent_config)

unfoldable pub find_template : String → String → Result (List TemplateResult) → Result Template
unfolding keep choose_template
find_template kind name (err e) = err e
find_template kind name (ok results) =
    choose_template kind name (keep (λ (r : TemplateResult). r.name is name) results)

unfoldable pub find_host_by_name : List Host → String → Option Host
find_host_by_name [] hostname = none
find_host_by_name (h ∷ hs) hostname =
    let rest = find_host_by_name hs hostname in if h.name is hostname then some h else rest

-- jobIDFrom
unfoldable pub job_id_from : ℕ → ℕ → Result ℕ
job_id_from id preferred =
    if not (preferred == 0)
    then ok preferred
    else if not (id == 0)
    then ok id
    else err (
        wrap
          (lit
              "AWX accepted the launch but its response carried no job id, so the run cannot be tracked "
            ∷ lit "and would be launched again on the next pass"
            ∷ [])
          permanent_config)

-- The request lists the templates, or the workflow templates, that AWX finds under a name.
module _ {S : Type 0} (get_templates : Bool → String → Exec S (List TemplateResult)) where
  -- FindJobTemplate and FindWorkflowJobTemplate
  unfoldable pub find_template_of : Bool → String → Exec S Template
  find_template_of workflow name = do
    answer ← attempt (get_templates workflow name)
    lift (find_template (if workflow then "workflow job template" else "job template") name answer)

  unfoldable pub resolve_template : TemplateRef → Exec S Template
  resolve_template ref =
      if ref.type is template_type_job
      then labelled (lit "resolving template " ∷ quoted ref.name ∷ [])
          (find_template_of false ref.name)
      else if ref.type is template_type_workflow
      then labelled (lit "resolving template " ∷ quoted ref.name ∷ [])
          (find_template_of true ref.name)
      else raise (
          errorf (
            lit "spec.template.type must be "
            ∷ quoted template_type_job
            ∷ lit " or "
            ∷ quoted template_type_workflow
            ∷ lit ", got "
            ∷ quoted ref.type
            ∷ []))

-- One page of a list of hosts.
pub record HostPage : Type 0 where
  pub next : String
  pub results : List Host

abbrev pub max_host_list_pages : ℕ
max_host_list_pages = 100

-- The loop over one page: the description is compared again.
unfoldable pub collect_owned : String → List Host → List (String × Host) → List (String × Host)
unfolding insert
collect_owned marker [] owned = owned
collect_owned marker (h ∷ hs) owned =
    let kept = collect_owned marker hs (insert h.name h owned) in
    let left = collect_owned marker hs owned in
    if trim_space h.description is marker then kept else left

module _ {S : Type 0} (get_page : String → Exec S HostPage) where
  -- The loop over the pages, of which `pages` may still be read. A next link that is not a path of
  -- the same instance ends it.
  unfoldable pub list_pages :
      ℕ → String → String → List (String × Host) → Exec S (List (String × Host))
  list_pages zero marker path owned = pure owned
  list_pages (suc pages) marker path owned = if path is "" then pure owned else (do
    page ← labelled (lit "listing AWX hosts owned by " ∷ quoted marker ∷ []) (get_page path)
    if starts_with page.next "/"
        then list_pages pages marker page.next (collect_owned marker page.results owned)
        else pure (collect_owned marker page.results owned))

  unfoldable pub list_owned_hosts : String → String → Exec S (List (String × Host))
  list_owned_hosts marker path = list_pages max_host_list_pages marker path []
