-- ===== src/Lib.antt =====
-- UniDERP: a control plane that lends relay nodes to tailnets. Owners of nodes and of tailnets agree
-- on grants; the controller computes from its tables what each node may relay and sends it as a
-- policy under a growing revision; the node checks it, keeps it in a guarded cache and reports back.
--
-- Which file models which part (paths from the repository's root):
--
-- Base (with Tests, Lists, Results), Clock, Text: what the parts share. Boolean tests and lists over
--   the native ℕ, `Result` for Go's `(T, error)`, instants in nanoseconds since the zero time of
--   Go's package time, and the functions of package strings that the sources call.
-- Cluster.Policy, Cluster.Validate: internal/cluster/protocol.go, the policy's types and
--   ValidatePolicy, ValidateQoS. Cluster.Validate.Sound and Cluster.Deadlines hold the proofs.
-- Cluster.Cache: internal/cluster/cache.go, saveCacheAt (`save_writes`) and LoadCache
--   (`load_cache`) over a directory of two files. A save gives its writes in order; `run_writes k`
--   is the directory after a crash that let the first k reach the disk. Proofs in Saved, RoundTrip
--   and Rollback, the last with runs of saves, crashes and loads.
-- Control.Schema: internal/control/migrations.go, the tables at version 7, one record for a row and
--   `Database` for the whole. A transaction is a function from tables to a result: an error leaves
--   no tables, as the rollback does.
-- Control.Access, Control.Users: internal/control/auth.go, RequireOwner, activeActor and writeAudit;
--   accounts, passwords, login, sessions. Reset, Login and Admins hold the proofs.
-- Control.Identity, Control.Publish: internal/control/identity_store.go, conflictingKeys, and
--   publishIdentity, RefreshIdentity. Events holds lemmas.
-- Control.Tailnets: internal/control/credentials.go, AddTailnet, ReplaceCredential, TransferTailnet,
--   DeleteCredential, and DeleteTailnet of resources.go. Overtaken holds the proofs.
-- Control.Policy: internal/control/policy.go, buildPolicy and rebuildPolicies. Serving, Built,
--   Grants, Sound, Drafts and Again hold the proofs.
-- Control.Grants: internal/control/grants.go, RequestGrant, ApplyGrantAction and what a reader is
--   shown. Moves, Retry, Lasting, Acted, Found, Written, Enabled and Request hold the proofs.
-- Control.Sessions, Control.Acknowledge: internal/control/nodes.go, nodeSession, and
--   internal/control/control_stream.go, AcknowledgePolicy. Order and Usable hold the proofs.
-- Control.Resources: SetTailnetEnabled and SetNodeEnabled of internal/control/resources.go,
--   SetNodeQoS of internal/control/qos.go, SetRetentions of internal/control/policy.go. The proof is
--   in Silence.
-- Control.Challenges, Control.Enroll, Control.Renew: internal/control/nodes.go, newNodeChallenge,
--   checkNodeChallenge, mintNodeSession; EnrollNode; SessionChallenge, RenewNodeSession,
--   RecoverNodeInstance. An operation with a transaction before and one after its call of the network
--   takes the tables of both. Challenges.Once, Challenges.Mint, Enroll.Again, Renew.Once,
--   Renew.Single and Renew.Locked hold the proofs.
-- Control.Release: internal/control/node_self.go, and the ports of resources.go. The proof is in
--   Revoked.
-- Control.Domain, Control.Nodes: normalizeNodeDomain of internal/control/domain.go; CreateNode and
--   IssueEnrollment of nodes.go, DeleteNode and ChangeNodeDomain of resources.go. The proof is in
--   Regions.
-- Control.Report: saveNodeReport of internal/control/observability.go and NodeHeartbeat of policy.go.
--   Latest and Pace hold the proofs.
-- Control.DerpMap: internal/control/derpmap.go, BuildDERPMap. The proof is in Offers.
-- Control.Expiry: internal/control/expiry_events.go, refreshExpiryEvents. The proof is in Unique.
-- Config: internal/config/config.go, Normalize, Validate (Config), Clone and RestartOnlyChanged
--   (Restart), the tree of a YAML text and the searches in it (Yaml), Parse (Parse). Defaults,
--   Checked, Unchanged, Yaml.Keys and Parse.Accepted hold the proofs.
-- Tests: a small cluster and runs of the code on it.
--
-- How the parts meet. Grants and the policy builder share the tables: each change of a grant ends in
-- `build_policy` for its node, inside the same transaction. The builder calls `validate_policy`
-- before it publishes, and reads a stored policy back through `decode_policy`, which validates it
-- again; so does the acknowledgement of an applied policy. The node's cache validates what it saves
-- and what it loads. `effective_until` is what the node and the controller both take as a key's
-- deadline. What changes accounts, tailnets, identities or retentions ends in `rebuild_policies`. A
-- node's session comes from `mint_node_session` alone, in enrollment and in renewal, and every
-- operation of a node goes through `node_session`.
--
-- Parameters, for what is not in the repository: `PublicKeys` (key.NodePublic of tailscale.com),
-- `Codec` (encoding/json on policies and crypto/sha256), `Env` (both, the digest of a token and the
-- cluster's id), `fresh` for randomToken, `Secrets` (bcrypt, hexadecimal text), `NodeCrypto`
-- (crypto/ed25519, the JSON text of challenges, sealing), `DomainEnv` (strings.ToLower, net/netip),
-- `ReportCodec` (JSON of reports), `NetEnv` (net, net/netip, net/url, strconv, path/filepath),
-- `YamlEnv` and `YamlDecoder` (fmt and gopkg.in/yaml.v3), `itoa` (strconv.Itoa), and as
-- arguments the answer of a domain, of Tailscale, and whether a node has a stream open. Where a
-- theorem relies on JSON or on digests, it says so in a hypothesis, and Tests.Samples has a table that meets it.
--
-- Bounds. No function runs on fuel: the loops follow lists. Counts and revisions are ℕ with the
-- source's own limits written out (`max_int64`, 4096 grants, 65536 keys, 8 MiB); a retention is at
-- most `max_int64` nanoseconds in seconds, so the source's product does not wrap. Times before 1970
-- are not represented. An operation reads the clock once here, and several times in the source.
--
-- Not modelled: HTTP, the web console, SQL as a language (each query is written out as what it
-- selects, and deletions carry the rows that refer to what is deleted), the notification of streams,
-- processes and sockets of the node, the daemon, probes, and what the console lists. An InputError is
-- ErrInvalid with the name of a field, and is `invalid` here.
pub mod Base
pub mod Clock
pub mod Text
pub mod Cluster
pub mod Control
pub mod Tests
pub mod Config
