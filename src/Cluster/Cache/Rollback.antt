-- ===== src/Cluster/Cache/Rollback.antt =====
-- internal/cluster/cache.go as a guard against older policies: runs of saves, crashes and loads.
use multi_derp.Base.{
  List, Result, String, [], arith, eq_iff, err, inl, inr, ok, refl, some, suc, zero, ℕ, ◌∷◌, ◌≡◌,
  ◌≢◌, ◌≤◌, ◌⊎◌,
}
use multi_derp.Clock.{Instant}
use multi_derp.Cluster.Cache.{
  CacheDir, CacheError, Codec, MarkFile, Watermark, Write, absent, corrupt, holds, load_cache,
  next_mark, put_mark, put_snapshot, read_cache_watermark, run_writes, save_conflict, save_writes,
  start_mark, touch, write,
}
use multi_derp.Cluster.Cache.Saved.{save_writes-IsSaved}
use multi_derp.Cluster.Policy.{Policy, PublicKeys}

-- The watermark holds a revision of at least `n`.
abbrev pub IsMarked : ℕ → MarkFile → Type 0
IsMarked n (holds m) = n ≤ m.revision
IsMarked n absent = ⊥
IsMarked n corrupt = ⊥

marked_by :
    (n : ℕ) (f : MarkFile) → IsMarked n f → (m : Watermark) × (f ≡ holds m) × (n ≤ m.revision)
marked_by n (holds m) h = (m, refl, h)
marked_by n absent h = absurd h
marked_by n corrupt h = absurd h

module _ (lib : PublicKeys) (codec : Codec) where
  -- What befalls the directory: a save of which the first writes reach the disk, and a load.
  pub data CacheEvent : Type 0 where
    saves : String → Policy → Instant → ℕ → CacheEvent
    loads : String → String → Instant → CacheEvent

  unfoldable pub after_save : ℕ → CacheDir → Result CacheError (List Write) → CacheDir
  after_save k dir (ok ws) = run_writes k ws dir
  after_save k dir (err e) = dir

  unfoldable pub after_load : CacheDir → Result CacheError (Policy × CacheDir) → CacheDir
  after_load dir (ok (p, dir')) = dir'
  after_load dir (err e) = dir

  unfoldable pub cache_step : CacheEvent → CacheDir → CacheDir
  cache_step (saves path p now k) dir = after_save k dir (save_writes lib codec path dir p now)
  cache_step (loads cluster_id node_id now) dir =
      after_load dir (load_cache lib codec dir cluster_id node_id now)

  unfoldable pub cache_run : List CacheEvent → CacheDir → CacheDir
  cache_run [] dir = dir
  cache_run (e ∷ es) dir = cache_run es (cache_step e dir)

  run_writes_two :
      (k : ℕ) (m : Watermark) (b : String) (dir : CacheDir)
      → ((run_writes k (put_mark m ∷ put_snapshot b ∷ []) dir).mark ≡ dir.mark)
        ⊎ ((run_writes k (put_mark m ∷ put_snapshot b ∷ []) dir).mark ≡ holds m)
  unfolding run_writes write
  run_writes_two zero m b dir = inl refl
  run_writes_two (suc zero) m b dir = inr refl
  run_writes_two (suc (suc zero)) m b dir = inr refl
  run_writes_two (suc (suc (suc k))) m b dir = inr refl

  save_writes-FromMark :
      (path : String) (dir : CacheDir) (p : Policy) (now : Instant) (ws : List Write)
      (old : Watermark)
      → dir.mark ≡ holds old
      → save_writes lib codec path dir p now ≡ ok ws
      → (old.revision ≤ p.revision)
        × (ws
            ≡ put_mark (next_mark old p (codec.digest (codec.encode p)) now)
              ∷ put_snapshot (codec.encode p)
              ∷ [])
  unfolding save_writes save_conflict read_cache_watermark start_mark
  save_writes-FromMark path dir p now ws old marked h = ground arith

  next_mark_newer :
      (n : ℕ) (old : Watermark) (p : Policy) (now : Instant)
      → old.revision ≤ p.revision
      → n ≤ old.revision
      → n ≤ (next_mark old p (codec.digest (codec.encode p)) now).revision
  unfolding next_mark
  next_mark_newer n old p now newer h = omega arith

  after_save-IsMarked :
      (n k : ℕ) (dir : CacheDir) (path : String) (p : Policy) (now : Instant) (old : Watermark)
      (r : Result CacheError (List Write))
      → dir.mark ≡ holds old
      → n ≤ old.revision
      → save_writes lib codec path dir p now ≡ r
      → IsMarked n (after_save k dir r).mark
  unfolding after_save
  after_save-IsMarked n k dir path p now old (err e) marked h saved = rw marked h
  after_save-IsMarked n k dir path p now old (ok ws) marked h saved =
      let (newer, e) = save_writes-FromMark path dir p now ws old marked saved in
      let m = next_mark old p (codec.digest (codec.encode p)) now in
      rw e (elim (run_writes_two k m (codec.encode p) dir) [
        | inl same ↦ rw same (rw marked h)
        | inr new ↦ rw new (next_mark_newer n old p now newer h)
      ])

  after_load-IsMarked :
      (n : ℕ) (dir : CacheDir) (cluster_id node_id : String) (now : Instant) (old : Watermark)
      → dir.mark ≡ holds old
      → n ≤ old.revision
      → IsMarked n (after_load dir (load_cache lib codec dir cluster_id node_id now)).mark
  unfolding after_load load_cache touch read_cache_watermark
  after_load-IsMarked n dir cluster_id node_id now old marked h = ground arith

  cache_step-IsMarked :
      (n : ℕ) (e : CacheEvent) (dir : CacheDir)
      → IsMarked n dir.mark
      → IsMarked n (cache_step e dir).mark
  unfolding cache_step
  cache_step-IsMarked n (saves path p now k) dir marked =
      let (old, e, h) = marked_by n dir.mark marked in
      after_save-IsMarked n k dir path p now old _ e h refl
  cache_step-IsMarked n (loads cluster_id node_id now) dir marked =
      let (old, e, h) = marked_by n dir.mark marked in
      after_load-IsMarked n dir cluster_id node_id now old e h

  cache_run-IsMarked :
      (n : ℕ) (es : List CacheEvent) (dir : CacheDir)
      → IsMarked n dir.mark
      → IsMarked n (cache_run es dir).mark
  unfolding cache_run
  cache_run-IsMarked n [] dir marked = marked
  cache_run-IsMarked n (e ∷ es) dir marked =
      cache_run-IsMarked n es (cache_step e dir) (cache_step-IsMarked n e dir marked)

  load_revision :
      (n : ℕ) (dir : CacheDir) (cluster_id node_id : String) (now : Instant) (p : Policy)
      (dir' : CacheDir) (old : Watermark)
      → dir.mark ≡ holds old
      → n ≤ old.revision
      → load_cache lib codec dir cluster_id node_id now ≡ ok (p, dir')
      → n ≤ p.revision
  unfolding load_cache read_cache_watermark
  load_revision n dir cluster_id node_id now p dir' old marked h loaded = ground arith

  load_cache-IsMarked :
      (n : ℕ) (dir : CacheDir) (cluster_id node_id : String) (now : Instant) (p : Policy)
      (dir' : CacheDir)
      → load_cache lib codec dir cluster_id node_id now ≡ ok (p, dir')
      → IsMarked n dir.mark
      → n ≤ p.revision
  unfolding load_cache
  load_cache-IsMarked n dir cluster_id node_id now p dir' loaded marked =
      let (old, e, h) = marked_by n dir.mark marked in
      load_revision n dir cluster_id node_id now p dir' old e h loaded

  -- Once the watermark holds a revision, then after any saves (complete, refused or cut short by a
  -- crash) and loads, a policy that loads has at least that revision: no older policy comes back.
  pub load_cache-no_rollback :
      (es : List CacheEvent) (dir : CacheDir) (m : Watermark) (cluster_id node_id : String)
      (now : Instant) (p : Policy) (dir' : CacheDir)
      → dir.mark ≡ holds m
      → load_cache lib codec (cache_run es dir) cluster_id node_id now ≡ ok (p, dir')
      → m.revision ≤ p.revision
  load_cache-no_rollback es dir m cluster_id node_id now p dir' marked loaded =
      load_cache-IsMarked m.revision (cache_run es dir) cluster_id node_id now p dir' loaded
        (cache_run-IsMarked m.revision es dir (rw marked (omega arith)))

  -- A save whose second write was lost leaves a directory from which no policy loads, whichever
  -- cluster and node are asked for and at whatever time, if the digest tells the old snapshot
  -- from the new.
  pub load_cache-lost_write :
      (path : String) (dir : CacheDir) (p : Policy) (now : Instant) (ws : List Write) (old : String)
      (cluster_id node_id : String) (later : Instant) (q : Policy) (dir' : CacheDir)
      → save_writes lib codec path dir p now ≡ ok ws
      → dir.snapshot ≡ some old
      → codec.digest old ≢ codec.digest (codec.encode p)
      → load_cache lib codec (run_writes 1 ws dir) cluster_id node_id later ≢ ok (q, dir')
  unfolding load_cache run_writes write next_mark read_cache_watermark
  load_cache-lost_write path dir p now ws old cluster_id node_id later q dir' saved had differ =
      let (m, s) = save_writes-IsSaved lib codec path dir p now ws saved in
      rw s.writes (ground (arith, eq_iff (codec.digest old) (codec.digest (codec.encode p))))
