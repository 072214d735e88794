-- ===== src/Connections.antt =====
-- controller/awxconnection.go, with getSecretValue of controller/util.go, the API paths of
-- controller/awx_client.go and awxClientForConnection of controller/caches.go.
use Prim.Native.Char.{Char, code}
use ansible_supervisor_servi.Prelude.{
  ℕ, ◌*◌, ◌≡◌, String, Bool, true, false, ◌&&◌, none, some, List, [], ◌∷◌, ◌++◌, Text, lit, shown,
  quoted, decimal, concat, trim_space, starts_with, leb, ltb, arith, ◌==◌, ◌is◌, if◌then◌else◌,
}
use ansible_supervisor_servi.Errors.{
  Result, ok, err, errorf, wrap, wrap_both, permanent_config, has_permanent_config,
}
use ansible_supervisor_servi.Exec.{Exec, pure, raise, lift, labelled, ◌>>=◌, ◌>>◌}
use ansible_supervisor_servi.Time.{second}
use ansible_supervisor_servi.Awx.{SecretKeyRef, Connection, Client}
use ansible_supervisor_servi.Caches.{Caching, connection_key, cached_value}
use ansible_supervisor_servi.Engine.Patch.{patch_status}

abbrev pub default_ca_bundle_key : String
default_ca_bundle_key = "ca.crt"

-- apiBasePathCandidates
abbrev pub api_base_path_candidates : List String
api_base_path_candidates = "/api/controller/v2" ∷ "/api/v2" ∷ []

-- TLSOptions
pub record TlsOptions : Type 0 where
  pub insecure_skip_verify : Bool
  pub ca_bundle_pem : String

-- A key of a Secret's data: absent or "", or encoded, by what base64 makes of it.
pub data SecretData : Type 0 where
  absent : SecretData
  encoded : Result String → SecretData

-- `read_secret` is the read of a Secret followed by that of a key; `ping_status` is the status code
-- that a path under a URL answers an unauthenticated GET with; `new_client` is NewAWXClient and
-- `ping` the check of the credentials.
pub record ConnectionServices (W : Type 0) : Type 0 where
  pub read_secret : String → String → String → W → Result SecretData × W
  pub ping_status : String → TlsOptions → W → Result ℕ × W
  pub new_client : String → String → String → TlsOptions → Result Client
  pub ping : Client → W → Result (Unit {0}) × W
  pub apply_base_path : Connection → String → W → Result (Unit {0}) × W

abbrev keep_slash : Char → String → String
keep_slash c String.[] = if code c == 47 then "" else String.◌∷◌ c ""
keep_slash c (String.◌∷◌ d s) = String.◌∷◌ c (String.◌∷◌ d s)

-- strings.TrimRight(s, "/"); 47 is the slash.
unfoldable pub trim_slashes : String → String
trim_slashes String.[] = ""
trim_slashes (String.◌∷◌ c s) = keep_slash c (trim_slashes s)

unfoldable pub normalize_api_base_path : String → String
unfolding trim_slashes
normalize_api_base_path path =
    let trimmed = trim_space path in
    if trimmed is ""
    then ""
    else trim_slashes (if starts_with trimmed "/" then trimmed else concat "/" trimmed)

-- The value of a key, without the space around it.
unfoldable pub secret_value : String → String → SecretData → Result String
secret_value name key absent = err (
    wrap (lit "secret " ∷ quoted name ∷ lit " has no data key " ∷ quoted key ∷ []) permanent_config)
secret_value name key (encoded (err e)) = err (
    wrap_both (lit "decoding secret " ∷ quoted name ∷ lit " key " ∷ quoted key ∷ []) e
      permanent_config)
secret_value name key (encoded (ok s)) =
    if trim_space s is ""
    then err (
        wrap (lit "secret " ∷ quoted name ∷ lit " key " ∷ quoted key ∷ lit " is empty" ∷ [])
          permanent_config)
    else ok (trim_space s)

module _ {W : Type 0} (svc : ConnectionServices W) where
  unfoldable pub get_secret_value : String → String → String → Exec W String
  get_secret_value namespace name key = do
    d ← labelled (lit "fetching secret " ∷ quoted name ∷ []) (svc.read_secret namespace name key)
    lift (secret_value name key d)

  abbrev key_or_default : SecretKeyRef → String
  key_or_default ref = if ref.key is "" then default_ca_bundle_key else ref.key

  -- awxTLSOptionsFor
  unfoldable pub awx_tls_options_for : Connection → Exec W TlsOptions
  awx_tls_options_for conn = elim conn.spec.ca_bundle_secret_ref [
    | none ↦
        pure (record { insecure_skip_verify = conn.spec.insecure_skip_verify; ca_bundle_pem = "" })
    | some ref ↦
        if conn.spec.insecure_skip_verify
        then raise (
            wrap
              (lit
                  "spec.insecureSkipVerify and spec.caBundleSecretRef are mutually exclusive: set one or the other"
                ∷ [])
              permanent_config)
        else if ref.name is ""
        then raise (wrap (lit "spec.caBundleSecretRef.name is required" ∷ []) permanent_config)
        else (do
          bundle ←
              labelled
                (lit "reading the CA bundle from secret "
                  ∷ quoted ref.name
                  ∷ lit " key "
                  ∷ quoted (key_or_default ref)
                  ∷ [])
                (get_secret_value conn.namespace ref.name (key_or_default ref))
          pure (record { insecure_skip_verify = false; ca_bundle_pem = bundle }))
  ]

  -- The loop of DetectAPIBasePath; `attempts` is what was answered so far.
  unfoldable pub probe : String → TlsOptions → List String → Text → Exec W String
  probe url opts [] attempts = raise (
      errorf (
        (lit "could not determine the AWX/AAP API base path at " ∷ shown url ∷ lit " (tried " ∷ [])
        ++ attempts
        ++ (lit
              "); set spec.apiBasePath on the AWXConnection if this instance serves the API somewhere else"
            ∷ [])))
  probe url opts (candidate ∷ rest) attempts = do
    status ←
        labelled (lit "probing " ∷ shown (concat url (concat candidate "/ping/")) ∷ [])
          (svc.ping_status (concat url (concat candidate "/ping/")) opts)
    (let next =
          probe url opts rest (attempts ++ (shown candidate ∷ lit " -> " ∷ decimal status ∷ [])) in
        if leb 200 status && ltb status 300 then pure candidate else next)

  -- DetectAPIBasePath
  unfoldable pub detect_api_base_path : String → TlsOptions → Exec W String
  unfolding trim_slashes
  detect_api_base_path url opts = probe (trim_slashes url) opts api_base_path_candidates []

  abbrev known_path : String → String → String
  known_path chosen detected = if chosen is "" then detected else chosen

  -- The base path: what the spec says, then what the status says, and a probe only failing both.
  unfoldable pub base_path_of : Connection → TlsOptions → Exec W String
  unfolding normalize_api_base_path
  base_path_of conn opts =
      let known =
        known_path (normalize_api_base_path conn.spec.api_base_path)
          (normalize_api_base_path conn.detected_base_path) in
      if known is "" then detect_api_base_path conn.spec.url opts else pure known

  -- awxClientFor; the client carries its base path.
  unfoldable pub awx_client_for : Connection → String → Exec W Client
  awx_client_for conn token = do
    opts ← awx_tls_options_for conn
    path ← base_path_of conn opts
    lift (svc.new_client conn.spec.url path token opts)

  -- The client of a connection that no cache has.
  unfoldable pub fresh_client : Connection → Exec W Client
  fresh_client conn = do
    token ←
        labelled (lit "reading AWX token from secret " ∷ quoted conn.spec.secret_ref ∷ [])
          (get_secret_value conn.namespace conn.spec.secret_ref "token")
    awx_client_for conn token

  -- applyAWXConnection, of a connection that decodes and has a spec.
  unfoldable pub apply_awx_connection : Connection → Exec W (Unit {0})
  apply_awx_connection conn =
      if conn.spec.url is ""
      then raise (errorf (lit "spec.url is required" ∷ []))
      else if conn.spec.secret_ref is ""
      then raise (errorf (lit "spec.secretRef is required" ∷ []))
      else (do
        token ←
            labelled (lit "reading token from secret " ∷ quoted conn.spec.secret_ref ∷ [])
              (get_secret_value conn.namespace conn.spec.secret_ref "token")
        client ←
            labelled (lit "preparing a client for " ∷ shown conn.spec.url ∷ [])
              (awx_client_for conn token)
        labelled
            (lit "validating connection to "
              ∷ shown conn.spec.url
              ∷ lit " (API base path "
              ∷ shown client.base_path
              ∷ lit ")"
              ∷ [])
            (svc.ping client)
        if conn.detected_base_path is client.base_path
            then pure tt
            else labelled (lit "recording the detected API base path" ∷ []) (
                patch_status (shown conn.namespace ∷ lit "/" ∷ shown conn.name ∷ [])
                  (svc.apply_base_path conn client.base_path)))

  abbrev pub awx_client_cache_ttl : ℕ
  awx_client_cache_ttl = 600 * second

  -- awxClientForConnection
  unfoldable pub awx_client_for_connection :
      (W → ℕ) → (W → W) → Connection → Exec (Caching W Client) Client
  unfolding connection_key
  awx_client_for_connection now tick conn =
      cached_value now tick awx_client_cache_ttl (connection_key conn) (fresh_client conn)

  abbrev refused_for_good : Result TlsOptions → Bool
  refused_for_good (ok o) = false
  refused_for_good (err e) = has_permanent_config e

  -- A connection that skips the verification of TLS and names a CA is refused for good, before
  -- anything is read.
  tls-exclusive :
      (conn : Connection) (ref : SecretKeyRef) (w : W)
      → conn.spec.ca_bundle_secret_ref ≡ some ref
      → conn.spec.insecure_skip_verify ≡ true
      → (refused_for_good (awx_tls_options_for conn w).0 ≡ true)
        × ((awx_tls_options_for conn w).1 ≡ w)
  unfolding awx_tls_options_for has_permanent_config
  tls-exclusive conn ref w e f = ground (arith, e, f)
