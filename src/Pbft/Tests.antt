-- ===== src/Pbft/Tests.antt =====
-- A swarm of four peers, and the theorems on pbft/ for it.
pub mod Agreement
pub mod Views
pub mod Service
pub mod Persistent
use bluzelle.Base.{
  ℕ, ◌+◌, ◌%◌, ◌≤◌, ◌≡◌, ◌↔◌, refl, Bool, true, List, [], ◌∷◌, some, arith, length, none-ne-some,
}
use bluzelle.Bytes.{Bytes, bytes, bytes_lt}
use bluzelle.Bytes.Order.{bytes_ordered, number_ordered}
use bluzelle.Map.{Map, insert, lookup}
use bluzelle.Sets
use bluzelle.Pbft.Quorum.{
  honest_majority_size, honest_member_size, faulty_nodes_bound, IsVote, in_both, quorums_overlap,
  two_majorities,
}
use bluzelle.Pbft.State.Escapes.{storage_key_injective}
use bluzelle.Pbft.Operation.{
  Envelope, database_msg, MsgType, Stage, Operation, construct, record_request, record_pbft_msg,
  advance_operation_stage, is_prepared,
}
use bluzelle.Pbft.Manager.{
  OperationKey, operation_key_ordered, delete_operations_until, prepared_operations_since,
}
use bluzelle.Pbft.Manager.Holding.{IsKeyed, insert-IsKeyed, delete_operations_until_lem}
use bluzelle.Pbft.Manager.Cleanup.{prepared_operations_since-delete_operations_until}
use bluzelle.Pbft.Manager.Selection.{Choice, prepared_operations_since_lem}
use bluzelle.Pbft.Operation.Stages.{
  count-IsStrict, World, Reachable, constructed, requested, recorded, advanced, Certified,
  Reachable-Certified,
}

abbrev peers : List Bytes
peers = bytes "a" ∷ bytes "b" ∷ bytes "c" ∷ bytes "d" ∷ []

abbrev first : List Bytes
first = bytes "a" ∷ bytes "b" ∷ bytes "c" ∷ []

abbrev second : List Bytes
second = bytes "b" ∷ bytes "c" ∷ bytes "d" ∷ []

first-IsVote : IsVote peers first
unfolding Sets.member bytes_lt
first-IsVote = record {
  distinct = λ k. count-IsStrict k first ((refl, (refl, tt)), ((refl, tt), (tt, tt)));
  peer = λ k m. ground arith;
}

second-IsVote : IsVote peers second
unfolding Sets.member bytes_lt
second-IsVote = record {
  distinct = λ k. count-IsStrict k second ((refl, (refl, tt)), ((refl, tt), (tt, tt)));
  peer = λ k m. ground arith;
}

two_majorities_example :
    (honest_majority_size 6 + honest_majority_size 6 ≡ 6 + honest_member_size 6) ↔ (6 % 3 ≡ 1)
two_majorities_example = two_majorities 6 (omega arith) (omega arith)

quorums_overlap_example : honest_member_size 4 ≤ in_both first second peers
unfolding honest_majority_size faulty_nodes_bound bluzelle.Policy.sub64
quorums_overlap_example =
    quorums_overlap peers first second refl (omega arith) first-IsVote second-IsVote (omega arith)
      (omega arith)

-- An operation of a swarm of one peer, which goes through all its stages.
abbrev parse : Bytes → ℕ × Bool
parse text = (length text, true)

abbrev envelope : Envelope
envelope = record {
  sender = bytes "a";
  payload = database_msg (bytes "create");
  signature = [];
  timestamp = 0;
}

abbrev blank : Operation ℕ ℕ
blank = construct 0 0 1 5 (bytes "hash")

abbrev known : Operation ℕ ℕ
known = record_request parse parse blank envelope

abbrev preprepared : Operation ℕ ℕ
preprepared = record known { preprepare_message = some envelope }

abbrev prepared : Operation ℕ ℕ
prepared = record preprepared {
  prepares_seen = bytes "a" ∷ [];
  prepare_messages = (bytes "a", envelope) ∷ [];
}

abbrev committing : Operation ℕ ℕ
committing = record prepared { stage = Stage.commit }

-- A swarm of one peer, from which the prepare came.
abbrev alone : World
alone = record { is_size = λ n. n ≡ 1; backed = λ k p. p ≡ bytes "a" }

committing-Reachable : Reachable parse parse alone committing
unfolding record_pbft_msg advance_operation_stage construct record_request insert Sets.insert
    bluzelle.Pbft.Operation.is_ready_for_commit honest_majority_size faulty_nodes_bound
    bluzelle.Policy.sub64
committing-Reachable =
    advanced 1 Stage.commit refl
      (recorded MsgType.prepare envelope
        (recorded MsgType.preprepare envelope
          (requested envelope (constructed 0 0 1 5 (bytes "hash"))) (λ e. absurd (cc e)) refl)
        (λ e. refl) refl)
      refl

Reachable-Certified_example : Certified parse parse alone committing
Reachable-Certified_example = Reachable-Certified parse parse alone committing-Reachable

-- A node that holds a prepared operation and a later one that is not.
abbrev nothing_held : Map OperationKey (Operation ℕ ℕ)
nothing_held = []

nothing_held-IsKeyed : IsKeyed nothing_held
unfolding lookup
nothing_held-IsKeyed = record { sorted = tt; keyed = λ k o e. absurd (none-ne-some e) }

abbrev later : Operation ℕ ℕ
later = construct 0 0 2 5 (bytes "hash")

abbrev held : Map OperationKey (Operation ℕ ℕ)
held = insert (1, (5, bytes "hash")) committing (insert (2, (5, bytes "hash")) later nothing_held)

held-IsKeyed : IsKeyed held
unfolding construct record_request
held-IsKeyed =
    insert-IsKeyed _ (1, (5, bytes "hash")) committing
      (insert-IsKeyed nothing_held (2, (5, bytes "hash")) later nothing_held-IsKeyed refl) refl

delete_operations_until_lem_example :
    lookup (1, (5, bytes "hash")) (delete_operations_until held 4)
    ≡ lookup (1, (5, bytes "hash")) held
delete_operations_until_lem_example =
    delete_operations_until_lem held 4 (1, (5, bytes "hash")) held-IsKeyed

prepared_operations_since_lem_example :
    Choice 4 5 held (lookup 5 (prepared_operations_since held 4))
prepared_operations_since_lem_example = prepared_operations_since_lem held 4 5

-- It is the prepared one, although the other is of a later view.
chosen : lookup 5 (prepared_operations_since held 4) ≡ some committing
unfolding prepared_operations_since bluzelle.Pbft.Manager.collect bluzelle.Pbft.Manager.maybe_store
    insert lookup is_prepared construct record_request bytes_lt
chosen = refl

prepared_operations_since-delete_operations_until_example :
    prepared_operations_since (delete_operations_until held 3) 4 ≡ prepared_operations_since held 4
prepared_operations_since-delete_operations_until_example =
    prepared_operations_since-delete_operations_until held 3 4 (omega arith)

abbrev view_key : List Bytes
view_key = bytes "/" ∷ bytes "2" ∷ []

storage_key_injective_example : (bytes "view" ≡ bytes "view") × (view_key ≡ view_key)
storage_key_injective_example =
    storage_key_injective (bytes "view") (bytes "view") view_key view_key refl
