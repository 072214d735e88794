-- ===== src/Errors.antt =====
-- Go's error values, and the predicates that walk their chains: controller/util.go,
-- controller/ansiblerun.go, controller/engine.go and controller/awx_client.go.
use ansible_supervisor_servi.Prelude.{
  ℕ, Bool, true, false, ◌&&◌, ◌||◌, Option, none, some, [], ◌∷◌, ◌++◌, Text, lit, ltb, leb, ◌==◌,
  if◌then◌else◌,
}

-- The reasons of the API server's StatusError that the code tells apart.
pub data Reason : Type 0 where
  not_found conflict already_exists other : Reason

-- `errorf` wraps nothing; `wrap` is a format that ends in ": %w"; `wrap_both` ends in ": %w: %w".
-- `terminal` and `cleanup_pending` are the wrappers terminalError and errCleanupPending.
-- `permanent_config` and `not_populated` are sentinels; `api` is the API server's StatusError and
-- `awx_status` the AWX client's awxStatusError.
pub data Error : Type 0 where
  errorf : Text → Error
  wrap : Text → Error → Error
  wrap_both : Text → Error → Error → Error
  terminal : Error → Error
  cleanup_pending : Error → Error
  permanent_config : Error
  not_populated : Error
  api : Reason → Text → Error
  awx_status : ℕ → Text → Error

pub data Result (A : Type 0) : Type 0 where
  ok : A → Result A
  err : Error → Result A

-- Error(): the text of a whole chain.
unfoldable pub error_text : Error → Text
error_text (errorf t) = t
error_text (wrap t e) = t ++ (lit ": " ∷ error_text e)
error_text (wrap_both t e f) = t ++ (lit ": " ∷ error_text e) ++ (lit ": " ∷ error_text f)
error_text (terminal e) = error_text e
error_text (cleanup_pending e) = error_text e
error_text permanent_config = lit "permanent configuration error" ∷ []
error_text not_populated = lit "nothing is there yet" ∷ []
error_text (api r t) = t
error_text (awx_status n t) = t

-- errors.As(err, &terminalError)
unfoldable pub is_terminal_error : Error → Bool
is_terminal_error (wrap t e) = is_terminal_error e
is_terminal_error (wrap_both t e f) = is_terminal_error e || is_terminal_error f
is_terminal_error (terminal e) = true
is_terminal_error (cleanup_pending e) = is_terminal_error e
is_terminal_error _ = false

-- errors.As(err, &errCleanupPending)
unfoldable pub is_cleanup_pending : Error → Bool
is_cleanup_pending (wrap t e) = is_cleanup_pending e
is_cleanup_pending (wrap_both t e f) = is_cleanup_pending e || is_cleanup_pending f
is_cleanup_pending (terminal e) = is_cleanup_pending e
is_cleanup_pending (cleanup_pending e) = true
is_cleanup_pending _ = false

abbrev first_some : Option ℕ → Option ℕ → Option ℕ
first_some none o = o
first_some (some n) o = some n

-- errors.As(err, &awxStatusError): the status code of the first one in the chain.
unfoldable pub awx_status_code : Error → Option ℕ
awx_status_code (wrap t e) = awx_status_code e
awx_status_code (wrap_both t e f) = first_some (awx_status_code e) (awx_status_code f)
awx_status_code (terminal e) = awx_status_code e
awx_status_code (cleanup_pending e) = awx_status_code e
awx_status_code (awx_status n t) = some n
awx_status_code _ = none

-- apierrors.ReasonForError: the first StatusError in the chain, as errors.As finds it.
unfoldable pub api_reason : Error → Option Reason
api_reason (wrap t e) = api_reason e
api_reason (wrap_both t e f) = elim (api_reason e) [ none ↦ api_reason f | some r ↦ some r ]
api_reason (terminal e) = api_reason e
api_reason (cleanup_pending e) = api_reason e
api_reason (api r t) = some r
api_reason _ = none

unfoldable pub is_not_found : Error → Bool
is_not_found e = elim (api_reason e) [ some not_found ↦ true | _ ↦ false ]

unfoldable pub is_conflict : Error → Bool
is_conflict e = elim (api_reason e) [ some conflict ↦ true | _ ↦ false ]

unfoldable pub is_already_exists : Error → Bool
is_already_exists e = elim (api_reason e) [ some already_exists ↦ true | _ ↦ false ]

-- errors.Is(err, errPermanentConfig)
unfoldable pub has_permanent_config : Error → Bool
has_permanent_config (wrap t e) = has_permanent_config e
has_permanent_config (wrap_both t e f) = has_permanent_config e || has_permanent_config f
has_permanent_config (terminal e) = has_permanent_config e
has_permanent_config (cleanup_pending e) = has_permanent_config e
has_permanent_config permanent_config = true
has_permanent_config _ = false

-- errors.Is(err, errNotPopulated)
unfoldable pub has_not_populated : Error → Bool
has_not_populated (wrap t e) = has_not_populated e
has_not_populated (wrap_both t e f) = has_not_populated e || has_not_populated f
has_not_populated (terminal e) = has_not_populated e
has_not_populated (cleanup_pending e) = has_not_populated e
has_not_populated not_populated = true
has_not_populated _ = false

unfoldable pub is_permanent : Error → Bool
is_permanent e = is_not_found e || has_permanent_config e

unfoldable pub launch_refused : Error → Bool
launch_refused e = elim (awx_status_code e) [
  | none ↦ false
  | some code ↦ if code == 408 || code == 429 then false else leb 400 code && ltb code 500
]
