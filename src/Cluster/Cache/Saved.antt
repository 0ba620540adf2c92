-- ===== src/Cluster/Cache/Saved.antt =====
-- internal/cluster/cache.go, saveCacheAt: what a save that was accepted has checked, and what it writes.
use multi_derp.Base.{
  List, Result-cases, String, [], arith, false, inl, inr, len, ok, ◌-◌, ◌<◌, ◌∷◌, ◌≡◌, ◌≤◌,
}
use multi_derp.Clock.{Instant}
use multi_derp.Cluster.Cache.{
  CacheDir, Codec, Watermark, Write, clock_slack, max_policy_bytes, next_mark, put_mark,
  put_snapshot, read_cache_watermark, save_conflict, save_writes, start_mark,
}
use multi_derp.Cluster.Policy.{Policy, PublicKeys}
use multi_derp.Cluster.Validate.{validate_policy}

module _ (lib : PublicKeys) (codec : Codec) where
  pub record IsSaved (dir : CacheDir) (p : Policy) (now : Instant) (ws : List Write) (m : Watermark)
      : Type 0 where
    pub started : start_mark dir p now (read_cache_watermark dir.mark) ≡ ok m
    pub agrees : save_conflict m p (codec.digest (codec.encode p)) ≡ false
    pub timely : m.observed_at - clock_slack ≤ now
    pub small : len (codec.encode p) ≤ max_policy_bytes
    pub valid : validate_policy lib p p.cluster_id p.node_id ≡ ok tt
    pub positive : 0 < now
    pub writes :
        ws
        ≡ put_mark (next_mark m p (codec.digest (codec.encode p)) now)
          ∷ put_snapshot (codec.encode p)
          ∷ []

  pub save_writes-IsSaved :
      (path : String) (dir : CacheDir) (p : Policy) (now : Instant) (ws : List Write)
      → save_writes lib codec path dir p now ≡ ok ws
      → (m : Watermark) × IsSaved dir p now ws m
  unfolding save_writes
  save_writes-IsSaved path dir p now ws h =
      elim (Result-cases (start_mark dir p now (read_cache_watermark dir.mark))) [
        | inr (x, e) ↦ absurd (ground arith)
        | inl (m, e) ↦ (
          m,
          record {
            started = e;
            agrees = ground arith;
            timely = ground arith;
            small = ground arith;
            valid = ground arith;
            positive = ground arith;
            writes = ground arith;
          },
        )
      ]
