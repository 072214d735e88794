-- ===== src/Caches/Apart.antt =====
-- What a cache answers belongs to the key that was asked for, and a launch does not read it.
use ansible_supervisor_servi.Prelude.{
  ℕ, String, ◌≡◌, refl, Bool, true, not, ◌&&◌, Option, none, some, List, [], ◌∷◌, arith, all, keep,
  insert, ltb, eq_iff, ◌+◌, inl, inr, Option-cases, Bool-cases, ◌||◌, ◌is◌, false,
}
use ansible_supervisor_servi.Errors.{Result, ok, err}
use ansible_supervisor_servi.Exec.{Exec}
use ansible_supervisor_servi.Awx.Lookup.{TemplateResult, resolve_template}
use ansible_supervisor_servi.Awx.{TemplateRef, Template, Client, Connection}
use ansible_supervisor_servi.Engine.Patch.Keeps.{Result-cases}
use ansible_supervisor_servi.Caches.Keys.{plain, SameRequest, template_cache_key-injective}
use ansible_supervisor_servi.Caches.{
  Cache, CacheEntry, entry_at, connection_key, store_entry, template_cache_key, template_cache_ttl,
  Caching, cache_value, answer_or, build_value, cached_value, resolve_template_cached,
  resolve_template_for_launch,
}

abbrev pub value_at : {V : Type 0} → String → Cache V → Option V
value_at k c = elim (entry_at k c) [ none ↦ none | some e ↦ some e.value ]

-- The cache that is left, by AWX's answer.
abbrev pub CachedAs : {V : Type 0} → Result V → String → Cache V → Cache V → Type 0
CachedAs (ok v) k before after = value_at k after ≡ some v
CachedAs (err e) k before after = after ≡ before

entry_at-insert :
    {V : Type 0} (k : String) (e : CacheEntry V) (c : Cache V) → entry_at k (insert k e c) ≡ some e
unfolding entry_at insert
entry_at-insert k e [] = ground (arith, eq_iff k k)
entry_at-insert k e (x ∷ c) = ground (arith, eq_iff k k, entry_at-insert k e c)

module _ {V : Type 0} (good : String → V → Bool) where
  abbrev pub all_good : Cache V → Bool
  all_good c = all (λ (e : String × CacheEntry V). good e.0 e.1.value) c

  entry_at-good :
      (k : String) (c : Cache V) (e : CacheEntry V)
      → all_good c ≡ true
      → entry_at k c ≡ some e
      → good k e.value ≡ true
  unfolding entry_at
  entry_at-good k [] e a f = ground (arith, f)
  entry_at-good k (x ∷ c) e a f = ground (arith, a, f, eq_iff x.0 k, entry_at-good k c e)

  keep-good :
      (p : String × CacheEntry V → Bool) (c : Cache V)
      → all_good c ≡ true
      → all_good (keep p c) ≡ true
  unfolding keep
  keep-good p [] a = refl
  keep-good p (x ∷ c) a = ground (arith, a, keep-good p c)

  insert-good :
      (k : String) (e : CacheEntry V) (c : Cache V)
      → good k e.value ≡ true
      → all_good c ≡ true
      → all_good (insert k e c) ≡ true
  unfolding insert
  insert-good k e [] g a = ground (arith, g)
  insert-good k e (x ∷ c) g a = ground (arith, g, a, insert-good k e c)

  store-good :
      (now ttl : ℕ) (k : String) (v : V) (c : Cache V)
      → good k v ≡ true
      → all_good c ≡ true
      → all_good (store_entry now ttl k v c) ≡ true
  unfolding store_entry
  store-good now ttl k v c g a =
      insert-good k (record { value = v; expires = now + ttl })
        (keep (λ (e : String × CacheEntry V). not (ltb e.1.expires now)) c) g
        (keep-good (λ (e : String × CacheEntry V). not (ltb e.1.expires now)) c a)

  -- The result, if there is one, and the cache that is left are good.
  abbrev pub good_outcome : {W : Type 0} → String → Result V × Caching W V → Bool
  good_outcome k (ok v, s) = good k v && all_good s.cache
  good_outcome k (err e, s) = all_good s.cache

  build-good :
      {W : Type 0} (now : W → ℕ) (tick : W → W) (ttl : ℕ) (k : String) (fetch : W → Result V × W)
      (s : Caching W V)
      → ((v : V) → (fetch s.world).0 ≡ ok v → good k v ≡ true)
      → all_good s.cache ≡ true
      → good_outcome k (build_value now tick ttl k fetch s) ≡ true
  unfolding build_value cache_value
  build-good now tick ttl k fetch s g a = elim (Result-cases (fetch s.world).0) [
    | inl (v, e) ↦
        ground (arith, e, a, g v e, store-good (now (fetch s.world).1) ttl k v s.cache (g v e) a)
    | inr (x, e) ↦ ground (arith, e, a)
  ]

  cached-good :
      {W : Type 0} (now : W → ℕ) (tick : W → W) (ttl : ℕ) (k : String) (fetch : W → Result V × W)
      (s : Caching W V)
      → ((w : W) (v : V) → (fetch w).0 ≡ ok v → good k v ≡ true)
      → all_good s.cache ≡ true
      → good_outcome k (cached_value now tick ttl k fetch s) ≡ true
  unfolding cached_value answer_or
  cached-good now tick ttl k fetch s g a = elim (Option-cases (entry_at k s.cache)) [
    | inl e ↦ ground (arith, e, build-good now tick ttl k fetch s (g s.world) a)
    | inr (x, e) ↦
        let ticked = record s { world = tick s.world } in
        ground (
          arith,
          e,
          a,
          entry_at-good k s.cache x a e,
          build-good now tick ttl k fetch ticked (g (tick s.world)) a,
        )
  ]

  outcome-good :
      {W : Type 0} (k : String) (p : Result V × Caching W V)
      → good_outcome k p ≡ true
      → all_good p.1.cache ≡ true
  outcome-good k (ok v, s) h = ground (arith, h)
  outcome-good k (err e, s) h = h

abbrev pub request_key : Connection → TemplateRef → String
request_key conn ref = template_cache_key (connection_key conn) ref

-- What a cache holds under a key has a property.
abbrev pub held_under : (Template → Bool) → String → String → Template → Bool
held_under held key k t = not (k is key) || held t

keys-differ :
    (conn other : Connection) (ref wanted : TemplateRef)
    → plain conn ref ≡ true
    → plain other wanted ≡ true
    → ¬ SameRequest conn ref other wanted
    → (request_key conn ref is request_key other wanted) ≡ false
keys-differ conn other ref wanted f g n =
    elim (Bool-cases (request_key conn ref is request_key other wanted)) [
      | inr e ↦ e
      | inl e ↦
          elim (n (
            template_cache_key-injective conn other ref wanted f g
              ((eq_iff (request_key conn ref) (request_key other wanted)).0 e))) [ ]
    ]

-- Resolving a reference through the cache, on a connection, while the cache may hold templates of
-- other references, connections and versions of them. Whatever property `good` the answers of AWX to
-- this request have: if the cache's entries have it, each under its own key, then what
-- resolveTemplateCached answers has it too, also from the cache, and the entries left in the cache
-- still have it. And it files nothing for another request: whatever property `held` the entries under
-- the key of one that differs in the connection's namespace, name or version, or in the template's
-- type or name, had before, they have after. The parts of the two keys that come before a "/" have
-- none themselves.
pub cache_apart :
    {W : Type 0} (now : W → ℕ) (tick : W → W)
    (get_templates : Client → Bool → String → Exec W (List TemplateResult))
    (good : String → Template → Bool) (held : Template → Bool) (client : Client)
    (conn other : Connection) (ref wanted : TemplateRef) (s : Caching W Template)
    → ((w : W) (t : Template)
        → (resolve_template (get_templates client) ref w).0 ≡ ok t
        → good (request_key conn ref) t ≡ true)
    → all_good good s.cache ≡ true
    → plain conn ref ≡ true
    → plain other wanted ≡ true
    → ¬ SameRequest conn ref other wanted
    → all_good (held_under held (request_key other wanted)) s.cache ≡ true
    → (good_outcome good
          (request_key conn ref)
          (resolve_template_cached now tick get_templates client (connection_key conn) ref s)
        ≡ true)
      × (all_good
            (held_under held (request_key other wanted))
            (resolve_template_cached now tick get_templates client
              (connection_key conn)
              ref
              s).1.cache
          ≡ true)
unfolding resolve_template_cached
cache_apart now tick get_templates good held client conn other ref wanted s g a f o n h =
    let fetch = resolve_template (get_templates client) ref in
    let key = request_key conn ref in
    let apart = keys-differ conn other ref wanted f o n in
    (
      cached-good good now tick template_cache_ttl key fetch s g a,
      outcome-good (held_under held (request_key other wanted)) key
          (cached_value now tick template_cache_ttl key fetch s)
          (cached-good (held_under held (request_key other wanted)) now tick template_cache_ttl key
            fetch s (λ w t e. ground (arith, apart)) h),
    )

-- What resolveTemplateForLaunch answers is what AWX answers in this very call, be it a template or an
-- error, whatever the cache holds. After the call the cache holds AWX's template for this key, and is
-- as it was where AWX answered with an error.
pub launch_reads_awx :
    {W : Type 0} (now : W → ℕ) (tick : W → W)
    (get_templates : Client → Bool → String → Exec W (List TemplateResult)) (client : Client)
    (conn_key : String) (ref : TemplateRef) (s : Caching W Template)
    → ((resolve_template_for_launch now tick get_templates client conn_key ref s).0
        ≡ (resolve_template (get_templates client) ref s.world).0)
      × CachedAs
          (resolve_template (get_templates client) ref s.world).0
          (template_cache_key conn_key ref)
          s.cache
          (resolve_template_for_launch now tick get_templates client conn_key ref s).1.cache
unfolding resolve_template_for_launch build_value cache_value store_entry
launch_reads_awx now tick get_templates client conn_key ref s =
    let got = resolve_template (get_templates client) ref s.world in
    elim (Result-cases got.0) [
      | inl (t, e) ↦ rw e (
        refl,
        ground (
          arith,
          entry_at-insert (template_cache_key conn_key ref)
              (record { value = t; expires = now got.1 + template_cache_ttl })
              (keep (λ (x : String × CacheEntry Template). not (ltb x.1.expires (now got.1)))
                s.cache),
        ),
      )
      | inr (x, e) ↦ rw e (refl, refl)
    ]
