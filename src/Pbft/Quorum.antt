-- ===== src/Pbft/Quorum.antt =====
-- The sizes of quorums, of pbft/pbft.cpp, and what two quorums have in common.
use bluzelle.Base.{
  ℕ, ◌+◌, ◌*◌, ◌/◌, ◌%◌, ◌^◌, ◌≤◌, ◌<◌, ◌≡◌, ◌↔◌, refl, Bool, true, false, ◌&&◌, List, [], ◌∷◌,
  arith, length,
}
use bluzelle.Bytes.{Bytes}
use bluzelle.Bytes.Order.{bytes_eq_iff}
use bluzelle.Bytes.Counts.{count, sum}
use bluzelle.Policy.{sub64}
use bluzelle.Sets

-- On `size_t`: one less than an empty swarm wraps.
unfoldable pub faulty_nodes_bound : ℕ → ℕ
faulty_nodes_bound swarm_size = sub64 swarm_size 1 / 3

unfoldable pub honest_member_size : ℕ → ℕ
honest_member_size swarm_size = faulty_nodes_bound swarm_size + 1

unfoldable pub honest_majority_size : ℕ → ℕ
honest_majority_size swarm_size = faulty_nodes_bound swarm_size * 2 + 1

-- For a swarm of at least one peer, whose size fits in 64 bits, two majorities together exceed the
-- swarm by the number that makes up one honest peer for certain exactly if the size is one more
-- than a multiple of three.
pub two_majorities :
    (n : ℕ)
    → 0 < n
    → n < 2 ^ 64
    → (honest_majority_size n + honest_majority_size n ≡ n + honest_member_size n) ↔ (n % 3 ≡ 1)
unfolding honest_majority_size honest_member_size faulty_nodes_bound sub64
two_majorities n h k = (λ e. omega arith, λ e. omega arith)

-- How many of the peers are in the set.
abbrev pub bit : Bool → ℕ
bit true = 1
bit false = 0

abbrev pub hits : List Bytes → List Bytes → ℕ
hits a peers = sum (λ p. bit (Sets.member p a)) peers

-- How many of the peers are in both.
abbrev pub in_both : List Bytes → List Bytes → List Bytes → ℕ
in_both a b peers = sum (λ p. bit (Sets.member p a && Sets.member p b)) peers

-- The senders of a quorum: different peers of the swarm.
pub record IsVote (peers senders : List Bytes) : Type 0 where
  pub distinct : (k : Bytes) → count k senders ≤ 1
  pub peer : (k : Bytes) → Sets.member k senders ≡ true → Sets.member k peers ≡ true

hits-le : (x : Bytes) (a peers : List Bytes) → hits a peers ≤ hits (x ∷ a) peers
unfolding sum Sets.member
hits-le x a [] = omega arith
hits-le x a (p ∷ peers) = ground (arith, hits-le x a peers)

hits-cons :
    (x : Bytes) (a peers : List Bytes)
    → Sets.member x a ≡ false
    → Sets.member x peers ≡ true
    → hits a peers + 1 ≤ hits (x ∷ a) peers
unfolding sum Sets.member
hits-cons x a [] h m = cc
hits-cons x a (p ∷ peers) h m =
    ground (arith, hits-cons x a peers h, hits-le x a peers, bytes_eq_iff p x, bytes_eq_iff x p)

member-count : (x : Bytes) (a : List Bytes) → count x a ≡ 0 → Sets.member x a ≡ false
unfolding count Sets.member
member-count x [] h = refl
member-count x (y ∷ a) h = ground (arith, member-count x a)

length-hits : (peers a : List Bytes) → IsVote peers a → length a ≤ hits a peers
unfolding count Sets.member
length-hits peers [] v = omega arith
length-hits peers (x ∷ a) v =
    let absent : count x a ≡ 0 = ground (arith, v.distinct x, bytes_eq_iff x x) in
    let rest : IsVote peers a = record {
      distinct = λ k. ground (arith, v.distinct k);
      peer = λ k m. v.peer k (ground arith);
    } in
    let there : Sets.member x peers ≡ true = v.peer x (ground (arith, bytes_eq_iff x x)) in
    omega (arith, length-hits peers a rest, hits-cons x a peers (member-count x a absent) there)

overlap-hits :
    (a b peers : List Bytes) → hits a peers + hits b peers ≤ length peers + in_both a b peers
unfolding sum
overlap-hits a b [] = omega arith
overlap-hits a b (p ∷ peers) = ground (arith, overlap-hits a b peers)

-- In a swarm whose size is one more than a multiple of three, and fits in 64 bits, two sets of
-- different peers that both have the size of a majority have at least as many peers in common as
-- make up one honest peer for certain.
pub quorums_overlap :
    (peers a b : List Bytes)
    → length peers % 3 ≡ 1
    → length peers < 2 ^ 64
    → IsVote peers a
    → IsVote peers b
    → honest_majority_size (length peers) ≤ length a
    → honest_majority_size (length peers) ≤ length b
    → honest_member_size (length peers) ≤ in_both a b peers
quorums_overlap peers a b h k va vb ha hb = omega (
  arith,
  (two_majorities (length peers) (omega arith) k).1 h,
  length-hits peers a va,
  length-hits peers b vb,
  overlap-hits a b peers,
)
