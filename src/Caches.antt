-- ===== src/Caches.antt =====
-- controller/caches.go: the caches of resolved templates and of AWX clients, and their keys.
pub mod Keys
pub mod Apart
use ansible_supervisor_servi.Prelude.{
  ℕ, ◌+◌, ◌*◌, String, Bool, true, false, not, Option, none, some, List, [], ◌∷◌, Text, lit, quoted,
  concat, keep, insert, ltb, ◌is◌, if◌then◌else◌,
}
use ansible_supervisor_servi.Errors.{Error, Result, ok, err, wrap, permanent_config}
use ansible_supervisor_servi.Exec.{Exec, pure, raise, gets, modify, labelled, ◌>>=◌, ◌>>◌}
use ansible_supervisor_servi.Time.{second}
use ansible_supervisor_servi.Awx.Lookup.{TemplateResult, resolve_template}
use ansible_supervisor_servi.Awx.{TemplateRef, Template, Connection, Client}

-- templateCacheTTL
abbrev pub template_cache_ttl : ℕ
template_cache_ttl = 300 * second

-- templateCacheEntry and awxClientCacheEntry.
pub record CacheEntry (V : Type 0) : Type 0 where
  pub value : V
  pub expires : ℕ

abbrev pub Cache : Type 0 → Type 0
Cache V = List (String × CacheEntry V)

-- The entry under a key, if there is one.
unfoldable pub entry_at : {V : Type 0} → String → Cache V → Option (CacheEntry V)
entry_at k [] = none
entry_at k (e ∷ es) = let rest = entry_at k es in if e.0 is k then some e.1 else rest

-- The write under the lock: what has expired goes, and the new entry comes in.
unfoldable pub store_entry : {V : Type 0} → ℕ → ℕ → String → V → Cache V → Cache V
unfolding keep insert
store_entry {V} now ttl k v c =
    insert k (record { value = v; expires = now + ttl })
      (keep (λ (e : String × CacheEntry V). not (ltb e.1.expires now)) c)

unfoldable pub connection_key : Connection → String
connection_key conn =
    concat conn.namespace (concat "/" (concat conn.name (concat "/" conn.resource_version)))

unfoldable pub template_cache_key : String → TemplateRef → String
template_cache_key conn_key ref =
    concat conn_key (concat "/" (concat ref.type (concat "/" ref.name)))

-- The process: the world it calls out to, and one of the two caches. No two goroutines are between
-- a Lock and its Unlock, and between two such stretches the cache may be another one: the operations
-- are stated for any.
pub record Caching (W V : Type 0) : Type 0 where
  pub world : W
  pub cache : Cache V

module _ {W V : Type 0} where
  abbrev pub reply : {A : Type 0} → Cache V → Result A × W → Result A × Caching W V
  reply c (r, w) = (r, record { world = w; cache = c })

  -- A call that leaves the cache alone.
  abbrev pub outside : {A : Type 0} → (W → Result A × W) → Exec (Caching W V) A
  outside f s = reply s.cache (f s.world)

  abbrev pub put_cache : (Cache V → Cache V) → Exec (Caching W V) (Unit {0})
  put_cache f s = (ok tt, record s { cache = f s.cache })

module _ {W V : Type 0} (now : W → ℕ) (tick : W → W) where
  abbrev pub clock : Exec (Caching W V) ℕ
  clock = outside (λ w. (ok (now w), tick w))

  -- cacheTemplate, and the end of awxClientForConnection.
  unfoldable pub cache_value : ℕ → String → V → Exec (Caching W V) (Unit {0})
  unfolding store_entry
  cache_value ttl k v = do t ← clock; put_cache (store_entry t ttl k v)

  unfoldable pub answer_or : Option (CacheEntry V) → Exec (Caching W V) V → Exec (Caching W V) V
  answer_or none build = build
  answer_or (some e) build = do t ← clock; if ltb t e.expires then pure e.value else build

  -- The value is built anew, and stored.
  unfoldable pub build_value : ℕ → String → (W → Result V × W) → Exec (Caching W V) V
  unfolding cache_value
  build_value ttl k fetch = do v ← outside fetch; cache_value ttl k v; pure v

  unfoldable pub cached_value : ℕ → String → (W → Result V × W) → Exec (Caching W V) V
  unfolding entry_at answer_or build_value
  cached_value ttl k fetch = do
    entry ← gets (λ s. entry_at k s.cache)
    answer_or entry (build_value ttl k fetch)

-- `get_templates` is the request to AWX that lists the templates of a name.
module _ {W : Type 0} (now : W → ℕ) (tick : W → W)
    (get_templates : Client → Bool → String → Exec W (List TemplateResult)) where
  unfoldable pub resolve_template_cached :
      Client → String → TemplateRef → Exec (Caching W Template) Template
  resolve_template_cached client conn_key ref =
      cached_value now tick template_cache_ttl (template_cache_key conn_key ref)
        (resolve_template (get_templates client) ref)

  -- Never from the cache.
  unfoldable pub resolve_template_for_launch :
      Client → String → TemplateRef → Exec (Caching W Template) Template
  resolve_template_for_launch client conn_key ref =
      build_value now tick template_cache_ttl (template_cache_key conn_key ref)
        (resolve_template (get_templates client) ref)
