-- ===== src/Cluster/Cache.antt =====
-- internal/cluster/cache.go: the node's policy file and the watermark that guards it. encoding/json
-- and crypto/sha256 are parameters; each file is replaced whole (temporary file, sync, rename), so
-- a crash or a failed write leaves the directory as it is after some of the writes.
pub mod Saved
pub mod RoundTrip
pub mod Rollback
use multi_derp.Base.{
  Bool, List, Option, Result, String, [], bool_eq, err, fail_if, if◌then◌else◌, len, ltb, map_err,
  nat_eq, none, not, ok, option_eq, or_fail, some, string_eq, suc, zero, ℕ, ◌&&◌, ◌*◌, ◌-◌, ◌==◌,
  ◌>>=◌, ◌>>◌, ◌^◌, ◌||◌, ◌∷◌,
}
use multi_derp.Clock.{Instant, before, is_zero, second}
use multi_derp.Cluster.Policy.{Policy, PublicKeys}
use multi_derp.Cluster.Validate.{PolicyError, validate_policy}
use multi_derp.Text.{is_hex_token}

pub record Codec : Type 0 where
  pub encode : Policy → String
  pub decode : String → Option Policy
  pub digest : String → String

pub record Watermark : Type 0 where
  pub cluster_id : String
  pub node_id : String
  pub revision : ℕ
  pub digest : String
  pub observed_at : Instant

-- `corrupt`: longer than 4096 bytes, or not the JSON text of a watermark.
pub data MarkFile : Type 0 where
  absent corrupt : MarkFile
  holds : Watermark → MarkFile

pub record CacheDir : Type 0 where
  pub mark : MarkFile
  pub snapshot : Option String

pub data CacheError : Type 0 where
  invalid_location invalid_policy not_exist invalid_watermark watermark_missing revision_conflict
        clock_backwards binding_conflict snapshot_mismatch invalid_cached :
      CacheError
  policy_refused : PolicyError → CacheError

abbrev pub max_policy_bytes : ℕ
max_policy_bytes = 8 * 2 ^ 20

-- The clock may go back by this much.
abbrev pub clock_slack : ℕ
clock_slack = 5 * second

unfoldable pub bad_watermark : Watermark → Bool
bad_watermark m =
    m.cluster_id == ""
    || m.node_id == ""
    || m.revision == 0
    || not (is_hex_token m.digest)
    || is_zero m.observed_at

unfoldable pub read_cache_watermark : MarkFile → Result CacheError Watermark
read_cache_watermark absent = err not_exist
read_cache_watermark corrupt = err invalid_watermark
read_cache_watermark (holds m) = if bad_watermark m then err invalid_watermark else ok m

-- One file replaced.
pub data Write : Type 0 where
  put_mark : Watermark → Write
  put_snapshot : String → Write

unfoldable pub write : Write → CacheDir → CacheDir
write (put_mark m) dir = record dir { mark = holds m }
write (put_snapshot b) dir = record dir { snapshot = some b }

-- The first `k` writes of a list, the others lost to a crash.
unfoldable pub run_writes : ℕ → List Write → CacheDir → CacheDir
run_writes zero ws dir = dir
run_writes (suc k) [] dir = dir
run_writes (suc k) (w ∷ ws) dir = run_writes k ws (write w dir)

-- The watermark that a save starts from: a new one if neither file exists.
unfoldable pub start_mark :
    CacheDir → Policy → Instant → Result CacheError Watermark → Result CacheError Watermark
start_mark dir p now (ok m) = ok m
start_mark dir p now (err not_exist) = elim dir.snapshot [
  | some b ↦ err watermark_missing
  | none ↦ ok (record {
    cluster_id = p.cluster_id;
    node_id = p.node_id;
    revision = 0;
    digest = "";
    observed_at = now;
  })
]
start_mark dir p now (err e) = err e

unfoldable pub save_conflict : Watermark → Policy → String → Bool
save_conflict m p digest =
    not (m.cluster_id == p.cluster_id)
    || not (m.node_id == p.node_id)
    || ltb p.revision m.revision
    || p.revision == m.revision && not (digest == m.digest)

unfoldable pub next_mark : Watermark → Policy → String → Instant → Watermark
next_mark m p digest now = record m {
  revision = p.revision;
  digest = digest;
  observed_at = if ltb m.observed_at now then now else m.observed_at;
}

unfoldable pub load_conflict : Watermark → String → String → Instant → Bool
load_conflict m cluster_id node_id now =
    not (m.cluster_id == cluster_id)
    || not (m.node_id == node_id)
    || before now (m.observed_at - clock_slack)

-- A load that succeeds moves the watermark's clock forward.
unfoldable pub touch : Watermark → Instant → CacheDir → CacheDir
touch m now dir =
    if ltb m.observed_at now
    then record dir { mark = holds (record m { observed_at = now }) }
    else dir

module _ (lib : PublicKeys) (codec : Codec) where
  -- `saveCacheAt` up to its writes, the watermark first.
  unfoldable pub save_writes : String → CacheDir → Policy → Instant → Result CacheError (List Write)
  save_writes path dir p now = do
    fail_if (path == "" || is_zero now) invalid_location
    map_err policy_refused (validate_policy lib p p.cluster_id p.node_id)
    let b = codec.encode p
    fail_if (ltb max_policy_bytes (len b)) invalid_policy
    let digest = codec.digest b
    m ← start_mark dir p now (read_cache_watermark dir.mark)
    fail_if (save_conflict m p digest) revision_conflict
    fail_if (before now (m.observed_at - clock_slack)) clock_backwards
    ok (put_mark (next_mark m p digest now) ∷ put_snapshot b ∷ [])

  unfoldable pub decode_policy : String → String → String → Result CacheError Policy
  decode_policy body cluster_id node_id = do
    fail_if (ltb max_policy_bytes (len body)) invalid_policy
    p ← or_fail (codec.decode body) invalid_policy
    map_err policy_refused (validate_policy lib p cluster_id node_id)
    ok p

  -- `LoadCache`: the policy, and the directory after it.
  unfoldable pub load_cache :
      CacheDir → String → String → Instant → Result CacheError (Policy × CacheDir)
  load_cache dir cluster_id node_id now = do
    fail_if (is_zero now) invalid_location
    m ← read_cache_watermark dir.mark
    fail_if (load_conflict m cluster_id node_id now) binding_conflict
    b ← or_fail dir.snapshot not_exist
    fail_if (ltb max_policy_bytes (len b) || not (codec.digest b == m.digest)) snapshot_mismatch
    p ← map_err (λ _. invalid_cached) (decode_policy b cluster_id node_id)
    fail_if (not (p.revision == m.revision)) invalid_cached
    ok (p, touch m now dir)
