-- ===== src/Control/Challenges/Once.antt =====
-- internal/control/nodes.go: what is left of a challenge that was used.
use multi_derp.Base.{
  Bool-cases, List, String, [], arith, err, find, inl, inr, nat_beq_iff, none, refl, ℕ, ◌<◌, ◌∷◌,
  ◌≡◌,
}
use multi_derp.Clock.{Instant}
use multi_derp.Control.Challenges.{
  NodeChallenge, NodeCrypto, bad_challenge, check_node_challenge, is_open_challenge, use_challenge,
}
use multi_derp.Control.Schema.{ChallengeRow, Database, Env, unauthorized, unix}

find-used :
    (hash id : String) (used now : ℕ) (rows : List ChallengeRow)
    → 0 < used
    → find (is_open_challenge hash id now) (use_challenge hash used rows) ≡ none
unfolding use_challenge
find-used hash id used now [] some_time = refl
find-used hash id used now (r ∷ rows) some_time =
    ground (arith, find-used hash id used now rows some_time, some_time, nat_beq_iff used 0)

-- Whoever shows it.
pub check_node_challenge-used :
    (env : Env) (crypto : NodeCrypto) (c : NodeChallenge) (sig purpose : String) (used : ℕ)
    (later : Instant) (rows : List ChallengeRow) (db : Database)
    → 0 < used
    → db.node_challenges ≡ use_challenge (env.digest c.nonce) used rows
    → check_node_challenge env crypto c sig purpose later db ≡ err unauthorized
unfolding check_node_challenge
check_node_challenge-used env crypto c sig purpose used later rows db some_time e =
    let gone = find-used (env.digest c.nonce) c.node_id used (unix later) rows some_time in
    elim (Bool-cases (bad_challenge env crypto c sig purpose later)) [
      | inl bad ↦ rw bad refl
      | inr fine ↦ rw (fine, e, gone) refl
    ]
