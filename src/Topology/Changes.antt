-- ===== src/Topology/Changes.antt =====
-- Who is told of a change of the topology.
use archerdb.Base.{
  ℕ, zero, suc, ◌<◌, ◌≡◌, ◌≢◌, refl, ap, ◌⊎◌, inl, inr, true, not, ◌&&◌, List, [], ◌∷◌, ◌++◌, map,
  Option, none, some, length, Some, All, arith, ltb, ◌==◌, ==_iff, ==_ne, if_elim,
}
use archerdb.Topology.{
  TopologyResponse, Notification, TopologyCache, registered, update, invalidate, on_change, blanked,
  unregister,
}

pub data Call : Type 0 where
  updating : ℕ → TopologyResponse → Call
  invalidating : Call
  registering : ℕ → Call
  unregistering : ℕ → Call

unfoldable pub perform : Call → TopologyCache → TopologyCache
unfolding update invalidate on_change unregister
perform (updating now topology) cache = (update now topology cache).0
perform invalidating cache = invalidate cache
perform (registering callback) cache = (on_change callback cache).0
perform (unregistering idx) cache = unregister idx cache

unfoldable pub perform_all : List Call → TopologyCache → TopologyCache
unfolding perform
perform_all [] cache = cache
perform_all (call ∷ calls) cache = perform_all calls (perform call cache)

-- The callback is in this place of the list.
abbrev pub Slot : ℕ → Option ℕ → List (Option ℕ) → Type 0
Slot idx c [] = ⊥
Slot zero c (d ∷ ds) = d ≡ c
Slot (suc idx) c (d ∷ ds) = Slot idx c ds

-- The call is no unregistering of this place.
abbrev pub Spares : ℕ → Call → Type 0
Spares idx (updating now topology) = Unit
Spares idx invalidating = Unit
Spares idx (registering callback) = Unit
Spares idx (unregistering other) = other ≢ idx

Slot-append :
    (idx : ℕ) (c d : Option ℕ) (ds : List (Option ℕ)) → Slot idx c ds → Slot idx c (ds ++ d ∷ [])
Slot-append idx c d [] h = absurd h
Slot-append zero c d (x ∷ ds) h = h
Slot-append (suc idx) c d (x ∷ ds) h = Slot-append idx c d ds h

Slot-blanked :
    (idx other : ℕ) (c : Option ℕ) (ds : List (Option ℕ))
    → other ≢ idx
    → Slot idx c ds
    → Slot idx c (blanked other ds)
Slot-blanked idx other c [] ne h = absurd h
Slot-blanked zero zero c (x ∷ ds) ne h = absurd (ne refl)
Slot-blanked zero (suc other) c (x ∷ ds) ne h = h
Slot-blanked (suc idx) zero c (x ∷ ds) ne h = h
Slot-blanked (suc idx) (suc other) c (x ∷ ds) ne h =
    Slot-blanked idx other c ds (λ e. ne (ap suc e)) h

Slot-new : (c : Option ℕ) (ds : List (Option ℕ)) → Slot (length ds) c (ds ++ c ∷ [])
Slot-new c [] = refl
Slot-new c (x ∷ ds) = Slot-new c ds

Slot-unregistered :
    (idx : ℕ) (ds : List (Option ℕ)) → idx < length ds → Slot idx none (blanked idx ds)
Slot-unregistered idx [] h = absurd (omega arith)
Slot-unregistered zero (x ∷ ds) h = refl
Slot-unregistered (suc idx) (x ∷ ds) h = Slot-unregistered idx ds (omega arith)

perform-Slot :
    (idx : ℕ) (c : Option ℕ) (call : Call) (cache : TopologyCache)
    → Spares idx call
    → Slot idx c cache.callbacks
    → Slot idx c (perform call cache).callbacks
unfolding perform update invalidate on_change unregister
perform-Slot idx c (updating now topology) cache s h = h
perform-Slot idx c invalidating cache s h = h
perform-Slot idx c (registering callback) cache s h =
    Slot-append idx c (some callback) cache.callbacks h
perform-Slot idx c (unregistering other) cache s h =
    if_elim (λ (after : TopologyCache). Slot idx c after.callbacks)
      (ltb other (length cache.callbacks)) (λ t. Slot-blanked idx other c cache.callbacks s h)
      (λ t. h)

perform_all-Slot :
    (idx : ℕ) (c : Option ℕ) (calls : List Call) (cache : TopologyCache)
    → All (Spares idx) calls
    → Slot idx c cache.callbacks
    → Slot idx c (perform_all calls cache).callbacks
unfolding perform_all
perform_all-Slot idx c [] cache s h = h
perform_all-Slot idx c (call ∷ calls) cache s h =
    perform_all-Slot idx c calls (perform call cache) s.1 (perform-Slot idx c call cache s.0 h)

abbrev or_else : ℕ → Option ℕ → ℕ
or_else c none = c
or_else c (some d) = d

-- a callback with the notification that it is started with
abbrev pub message : Notification → ℕ → ℕ × Notification
message n callback = (callback, n)

told :
    (n : Notification) (callback idx : ℕ) (ds : List (Option ℕ))
    → Slot idx (some callback) ds
    → Some (λ (m : ℕ × Notification). m ≡ (callback, n)) (map (message n) (registered ds))
told n callback idx [] h = absurd h
told n callback zero (none ∷ ds) h = ground arith
told n callback zero (some d ∷ ds) h = inl (ap (λ o. message n (or_else callback o)) h)
told n callback (suc idx) (none ∷ ds) h = told n callback idx ds h
told n callback (suc idx) (some d ∷ ds) h = inr (told n callback idx ds h)

registered_Slot :
    (callback : ℕ) (cache : TopologyCache)
    → Slot (length cache.callbacks) (some callback) (on_change callback cache).0.callbacks
unfolding on_change
registered_Slot callback cache = Slot-new (some callback) cache.callbacks

-- A callback that was registered is started by an update whatever calls stand between the two, as
-- long as none of them unregisters it: when the update finds a version in the cache that is not 0
-- and not its own, the callback is started with both versions.
pub registered_told :
    (callback now : ℕ) (calls : List Call) (cache : TopologyCache) (t : TopologyResponse)
    → All (Spares (length cache.callbacks)) calls
    → (perform_all calls (on_change callback cache).0).version ≢ 0
    → t.version ≢ (perform_all calls (on_change callback cache).0).version
    → Some
        (λ (m : ℕ × Notification). m ≡ (
          callback,
          record {
            new_version = t.version;
            old_version = (perform_all calls (on_change callback cache).0).version;
            timestamp_ns = now;
          },
        ))
        (update now t (perform_all calls (on_change callback cache).0)).1
unfolding update
registered_told callback now calls cache t spared some_version changed =
    let later = perform_all calls (on_change callback cache).0 in
    rw (==_ne t.version later.version changed, ==_ne later.version 0 some_version)
      (told _ callback (length cache.callbacks) later.callbacks (
        perform_all-Slot (length cache.callbacks) (some callback) calls (on_change callback cache).0
          spared (registered_Slot callback cache)))

-- The call is no update.
abbrev pub IsQuiet : Call → Type 0
IsQuiet (updating now topology) = ⊥
IsQuiet invalidating = Unit
IsQuiet (registering callback) = Unit
IsQuiet (unregistering idx) = Unit

perform-version :
    (call : Call) (cache : TopologyCache)
    → IsQuiet call
    → cache.version ≡ 0
    → (perform call cache).version ≡ 0
unfolding perform invalidate on_change unregister
perform-version (updating now topology) cache q h = absurd q
perform-version invalidating cache q h = refl
perform-version (registering callback) cache q h = h
perform-version (unregistering idx) cache q h =
    if_elim (λ (after : TopologyCache). after.version ≡ 0) (ltb idx (length cache.callbacks))
      (λ t. h) (λ t. h)

perform_all-version :
    (calls : List Call) (cache : TopologyCache)
    → All IsQuiet calls
    → cache.version ≡ 0
    → (perform_all calls cache).version ≡ 0
unfolding perform_all
perform_all-version [] cache q h = h
perform_all-version (call ∷ calls) cache q h =
    perform_all-version calls (perform call cache) q.1 (perform-version call cache q.0 h)

-- The first update after `invalidate` starts no callback, whatever version it brings: the change of
-- the version is not reported.
pub invalidated_silent :
    (now : ℕ) (calls : List Call) (cache : TopologyCache) (t : TopologyResponse)
    → All IsQuiet calls
    → (update now t (perform_all calls (invalidate cache))).1 ≡ []
unfolding update invalidate
invalidated_silent now calls cache t quiet =
    let none_known = perform_all-version calls (invalidate cache) quiet refl in
    let is_zero : ((perform_all calls (invalidate cache)).version == 0) ≡ true =
      (==_iff _ _).1 none_known in
    if_elim (λ (ms : List (ℕ × Notification)). ms ≡ [])
      (not (t.version == (perform_all calls (invalidate cache)).version)
        && not ((perform_all calls (invalidate cache)).version == 0))
      (λ both. ground arith) (λ t. refl)

-- The cache's version is 0 or that of the topology in the cache.
pub record IsFresh (cache : TopologyCache) : Type 0 where
  pub version :
      cache.version ≡ 0
      ⊎ ((t : TopologyResponse) × (cache.topology ≡ some t) × (t.version ≡ cache.version))

perform-IsFresh :
    (call : Call) (cache : TopologyCache) → IsFresh cache → IsFresh (perform call cache)
unfolding perform update invalidate on_change unregister
perform-IsFresh (updating now topology) cache f = record { version = inr (topology, refl, refl) }
perform-IsFresh invalidating cache f = record { version = inl refl }
perform-IsFresh (registering callback) cache f = record { version = f.version }
perform-IsFresh (unregistering idx) cache f =
    if_elim IsFresh (ltb idx (length cache.callbacks)) (λ t. record { version = f.version })
      (λ t. f)

-- Any calls on a cache whose version is 0 or that of its topology leave it so.
pub perform_all-IsFresh :
    (calls : List Call) (cache : TopologyCache) → IsFresh cache → IsFresh (perform_all calls cache)
unfolding perform_all
perform_all-IsFresh [] cache f = f
perform_all-IsFresh (call ∷ calls) cache f =
    perform_all-IsFresh calls (perform call cache) (perform-IsFresh call cache f)
