-- ===== src/Pbft/Operation/Stages.antt =====
-- The life of an operation: what it has seen when it reaches a stage.
use bluzelle.Base.{
  ℕ, ◌≤◌, ◌≡◌, refl, subst, Bool, true, false, ◌&&◌, List, [], ◌∷◌, some, length, if◌then◌else◌,
  arith, Bool-cases, inl, inr, false-ne-true, none-ne-some,
}
use mathlib.Core.Option.{some-injective}
use bluzelle.Bytes.{Bytes, bytes_eq, bytes_lt}
use bluzelle.Bytes.Order.{
  bytes_ordered, bytes_eq_iff, bytes_lt_trans, bytes_lt_total, bytes_lt_irrefl,
}
use bluzelle.Bytes.Counts.{count}
use bluzelle.Sets
use bluzelle.Sets.Laws.{member-insert}
use bluzelle.Pbft.Manager.{OperationKey, get_operation_key}
use bluzelle.Pbft.Operation.{
  Envelope, Operation, MsgType, Stage, Payload, database_msg, pbft_internal_request, pbft,
  checkpoint_msg, other, construct, record_request, record_pbft_msg, advance_operation_stage,
  is_prepared, is_committed, is_ready_for_commit, is_ready_for_execute, at_prepare, at_commit,
  has_request, is_preprepared,
}

-- A set as it is kept: in strict order.
abbrev pub AllAbove : Bytes → List Bytes → Type 0
AllAbove b [] = Unit {0}
AllAbove b (x ∷ xs) = (bytes_lt b x ≡ true) × AllAbove b xs

abbrev pub IsStrict : List Bytes → Type 0
IsStrict [] = Unit {0}
IsStrict (x ∷ xs) = AllAbove x xs × IsStrict xs

AllAbove-trans :
    (a b : Bytes) (xs : List Bytes) → bytes_lt a b ≡ true → AllAbove b xs → AllAbove a xs
AllAbove-trans a b [] h s = tt
AllAbove-trans a b (x ∷ xs) h s = (bytes_lt_trans a b x h s.0, AllAbove-trans a b xs h s.1)

insert-AllAbove :
    (b x : Bytes) (xs : List Bytes)
    → bytes_lt b x ≡ true
    → AllAbove b xs
    → AllAbove b (Sets.insert x xs)
unfolding Sets.insert
insert-AllAbove b x [] h s = (h, tt)
insert-AllAbove b x (y ∷ xs) h s = ground (arith, insert-AllAbove b x xs h s.1)

insert-IsStrict : (x : Bytes) (xs : List Bytes) → IsStrict xs → IsStrict (Sets.insert x xs)
unfolding Sets.insert
insert-IsStrict x [] s = (tt, tt)
insert-IsStrict x (y ∷ xs) s = ground (
  arith,
  insert-IsStrict x xs s.1,
  insert-AllAbove y x xs,
  AllAbove-trans x y xs,
  bytes_eq_iff y x,
  bytes_lt_total x y,
  bytes_eq_iff x y,
)

count-AllAbove : (b : Bytes) (xs : List Bytes) → AllAbove b xs → count b xs ≡ 0
unfolding count
count-AllAbove b [] h = refl
count-AllAbove b (x ∷ xs) h =
    ground (arith, count-AllAbove b xs h.1, bytes_eq_iff x b, bytes_lt_irrefl b)

-- In strict order no string occurs twice.
pub count-IsStrict : (k : Bytes) (xs : List Bytes) → IsStrict xs → count k xs ≤ 1
unfolding count
count-IsStrict k [] h = omega arith
count-IsStrict k (x ∷ xs) h =
    ground (arith, count-IsStrict k xs h.1, count-AllAbove x xs h.0, bytes_eq_iff x k)

length-insert : (x : Bytes) (xs : List Bytes) → length xs ≤ length (Sets.insert x xs)
unfolding Sets.insert
length-insert x [] = omega arith
length-insert x (y ∷ xs) = ground (arith, length-insert x xs)

-- What no call takes away from an operation, as long as its stage stays.
record Extends {D C : Type 0} (o o' : Operation D C) : Type 0 where
  stage : o'.stage ≡ o.stage
  request : has_request o ≡ true → has_request o' ≡ true
  preprepare : is_preprepared o ≡ true → is_preprepared o' ≡ true
  prepares : length o.prepares_seen ≤ length o'.prepares_seen
  commits : length o.commits_seen ≤ length o'.commits_seen
  prepares_strict : IsStrict o.prepares_seen → IsStrict o'.prepares_seen
  commits_strict : IsStrict o.commits_seen → IsStrict o'.commits_seen

ready_for_commit-Extends :
    {D C : Type 0} (n : ℕ) (o o' : Operation D C)
    → Extends o o'
    → is_ready_for_commit n o ≡ true
    → is_ready_for_commit n o' ≡ true
unfolding is_ready_for_commit
ready_for_commit-Extends n o o' x h = ground (arith, x.request, x.preprepare, x.prepares)

ready_for_execute-Extends :
    {D C : Type 0} (n : ℕ) (o o' : Operation D C)
    → Extends o o'
    → is_ready_for_execute n o ≡ true
    → is_ready_for_execute n o' ≡ true
unfolding is_ready_for_execute is_prepared
ready_for_execute-Extends n o o' x h = rw (x.stage) (ground (arith, x.commits))

-- What the calls of an operation rest on: the sizes that the swarm has, and the peers whose prepares
-- have come for the operation with a key.
pub record World : Type 1 where
  pub is_size : ℕ → Type 0
  pub backed : OperationKey → Bytes → Type 0

module _ {D C : Type 0} (parse_db : Bytes → D × Bool) (parse_config : Bytes → C × Bool)
    (w : World) where
  -- The states of an operation, by any sequence of calls; the size of the swarm may change between
  -- them, and a prepare is recorded only if it came for the operation.
  pub data Reachable : Operation D C → Type 0 where
    constructed :
        (d : D) (c : C) (view sequence : ℕ) (hash : Bytes)
        → Reachable (construct d c view sequence hash)
    requested :
        {o : Operation D C} (e : Envelope)
        → Reachable o
        → Reachable (record_request parse_db parse_config o e)
    recorded :
        {o o' : Operation D C} (t : MsgType) (e : Envelope)
        → Reachable o
        → (t ≡ MsgType.prepare → w.backed (get_operation_key o) e.sender)
        → record_pbft_msg o t e ≡ some o'
        → Reachable o'
    advanced :
        {o o' : Operation D C} (peers : ℕ) (s : Stage)
        → w.is_size peers
        → Reachable o
        → advance_operation_stage peers o s ≡ some o'
        → Reachable o'

  -- What a stage rests on: the request, the preprepare and the prepares of a majority of the swarm,
  -- in a size that it has; the commits of a majority; and prepares that came for this operation.
  pub record Certified (o : Operation D C) : Type 0 where
    pub prepared :
        is_prepared o ≡ true → (peers : ℕ) × w.is_size peers × (is_ready_for_commit peers o ≡ true)
    pub committed :
        is_committed o ≡ true
        → (peers : ℕ) × w.is_size peers × (is_ready_for_execute peers o ≡ true)
    pub prepares_distinct : IsStrict o.prepares_seen
    pub commits_distinct : IsStrict o.commits_seen
    pub prepares_backed :
        (p : Bytes) → Sets.member p o.prepares_seen ≡ true → w.backed (get_operation_key o) p

  Certified-Extends :
      (o o' : Operation D C)
      → Certified o
      → Extends o o'
      → ((p : Bytes) → Sets.member p o'.prepares_seen ≡ true → w.backed (get_operation_key o') p)
      → Certified o'
  unfolding is_prepared is_committed
  Certified-Extends o o' c x b = record {
    prepared = λ h.
        let (n, z, r) = c.prepared (rw (← x.stage) h) in
        (n, z, ready_for_commit-Extends n o o' x r);
    committed = λ h.
        let (n, z, r) = c.committed (rw (← x.stage) h) in
        (n, z, ready_for_execute-Extends n o o' x r);
    prepares_distinct = x.prepares_strict c.prepares_distinct;
    commits_distinct = x.commits_strict c.commits_distinct;
    prepares_backed = b;
  }

  Extends-if :
      (b : Bool) (o x y : Operation D C)
      → Extends o x
      → Extends o y
      → Extends o (if b then x else y)
  Extends-if true o x y h k = h
  Extends-if false o x y h k = k

  -- A change of what an operation has parsed, and a saved request.
  with_parsed :
      (o : Operation D C) (d : D) (c : C)
      → Extends o (record o { parsed_db = d; parsed_config = c })
  with_parsed o d c = record {
    stage = refl;
    request = λ h. h;
    preprepare = λ h. h;
    prepares = omega arith;
    commits = omega arith;
    prepares_strict = λ h. h;
    commits_strict = λ h. h;
  }

  with_request :
      (o : Operation D C) (d : D) (c : C) (e : Envelope)
      → Extends o (record o { parsed_db = d; parsed_config = c; request = some e })
  with_request o d c e = record {
    stage = refl;
    request = λ h. refl;
    preprepare = λ h. h;
    prepares = omega arith;
    commits = omega arith;
    prepares_strict = λ h. h;
    commits_strict = λ h. h;
  }

  record_request-Extends :
      (o : Operation D C) (e : Envelope) → Extends o (record_request parse_db parse_config o e)
  unfolding record_request
  record_request-Extends o e = go e.payload
    where
      go :
          (p : Payload)
          → Extends o (record_request parse_db parse_config o (record e { payload = p }))
      go (database_msg text) =
          Extends-if (parse_db text).1 o _ _
            (with_request o (parse_db text).0 o.parsed_config
              (record e { payload = database_msg text }))
            (with_parsed o (parse_db text).0 o.parsed_config)
      go (pbft_internal_request text) =
          Extends-if (parse_config text).1 o _ _
            (with_request o o.parsed_db (parse_config text).0
              (record e { payload = pbft_internal_request text }))
            (with_parsed o o.parsed_db (parse_config text).0)
      go other = with_parsed o o.parsed_db o.parsed_config
      go (pbft text) = with_parsed o o.parsed_db o.parsed_config
      go (checkpoint_msg text) = with_parsed o o.parsed_db o.parsed_config

  -- A request changes neither the key of an operation nor the prepares that it has seen.
  record Alike (o o' : Operation D C) : Type 0 where
    key : get_operation_key o' ≡ get_operation_key o
    prepares : o'.prepares_seen ≡ o.prepares_seen

  Alike-if :
      (b : Bool) (o x y : Operation D C) → Alike o x → Alike o y → Alike o (if b then x else y)
  Alike-if true o x y h k = h
  Alike-if false o x y h k = k

  record_request-Alike :
      (o : Operation D C) (e : Envelope) → Alike o (record_request parse_db parse_config o e)
  unfolding record_request
  record_request-Alike o e = go e.payload
    where
      go :
          (p : Payload)
          → Alike o (record_request parse_db parse_config o (record e { payload = p }))
      go (database_msg t) =
          Alike-if (parse_db t).1 o _ _ (record { key = refl; prepares = refl })
            (record { key = refl; prepares = refl })
      go (pbft_internal_request t) =
          Alike-if (parse_config t).1 o _ _ (record { key = refl; prepares = refl })
            (record { key = refl; prepares = refl })
      go other = record { key = refl; prepares = refl }
      go (pbft t) = record { key = refl; prepares = refl }
      go (checkpoint_msg t) = record { key = refl; prepares = refl }

  requested-Certified :
      (o : Operation D C) (e : Envelope)
      → Certified o
      → Certified (record_request parse_db parse_config o e)
  requested-Certified o e c =
      let a = record_request-Alike o e in
      Certified-Extends o _ c (record_request-Extends o e)
        λ p m. rw (a.key) (c.prepares_backed p (rw (a.prepares) at m))

  -- The members after an insertion.
  insert-backed :
      (x : Bytes) (xs : List Bytes) (k : OperationKey)
      → w.backed k x
      → ((p : Bytes) → Sets.member p xs ≡ true → w.backed k p)
      → (p : Bytes) → Sets.member p (Sets.insert x xs) ≡ true
      → w.backed k p
  insert-backed x xs k b h p m = elim (Bool-cases (bytes_eq x p)) [
    | inl z ↦ subst (w.backed k) ((bytes_eq_iff x p).0 z) b
    | inr z ↦ h p (rw (member-insert, z) at m)
  ]

  record_pbft_msg-Certified :
      (o o' : Operation D C) (t : MsgType) (e : Envelope)
      → Certified o
      → (t ≡ MsgType.prepare → w.backed (get_operation_key o) e.sender)
      → record_pbft_msg o t e ≡ some o'
      → Certified o'
  unfolding record_pbft_msg
  record_pbft_msg-Certified o o' MsgType.preprepare e c b h =
      subst Certified (some-injective _ o' h) (
        Certified-Extends o _ c
          (record {
            stage = refl;
            request = λ x. x;
            preprepare = λ x. refl;
            prepares = omega arith;
            commits = omega arith;
            prepares_strict = λ x. x;
            commits_strict = λ x. x;
          })
          c.prepares_backed)
  record_pbft_msg-Certified o o' MsgType.prepare e c b h = subst Certified (some-injective _ o' h) (
      Certified-Extends o _ c
        (record {
          stage = refl;
          request = λ x. x;
          preprepare = λ x. x;
          prepares = length-insert e.sender o.prepares_seen;
          commits = omega arith;
          prepares_strict = insert-IsStrict e.sender o.prepares_seen;
          commits_strict = λ x. x;
        })
        (insert-backed e.sender o.prepares_seen (get_operation_key o) (b refl) c.prepares_backed))
  record_pbft_msg-Certified o o' MsgType.commit e c b h = subst Certified (some-injective _ o' h) (
      Certified-Extends o _ c
        (record {
          stage = refl;
          request = λ x. x;
          preprepare = λ x. x;
          prepares = omega arith;
          commits = length-insert e.sender o.commits_seen;
          prepares_strict = λ x. x;
          commits_strict = insert-IsStrict e.sender o.commits_seen;
        })
        c.prepares_backed)
  record_pbft_msg-Certified o o' MsgType.viewchange e c b h = absurd (none-ne-some h)
  record_pbft_msg-Certified o o' MsgType.newview e c b h = absurd (none-ne-some h)
  record_pbft_msg-Certified o o' MsgType.undefined e c b h = absurd (none-ne-some h)

  advance-Certified :
      (o o' : Operation D C) (n : ℕ) (s : Stage)
      → w.is_size n
      → Certified o
      → advance_operation_stage n o s ≡ some o'
      → Certified o'
  unfolding advance_operation_stage is_ready_for_commit is_ready_for_execute is_prepared
      is_committed
  advance-Certified o o' n Stage.prepare size c h = absurd (none-ne-some h)
  advance-Certified o o' n Stage.commit size c h =
      elim (Bool-cases (is_ready_for_commit n o && at_prepare o.stage)) [
        | inl z ↦
            subst Certified (some-injective (record o { stage = Stage.commit }) o' (rw z at h))
              (record {
                prepared = λ _. (n, size, ground arith);
                committed = λ x. absurd (false-ne-true x);
                prepares_distinct = c.prepares_distinct;
                commits_distinct = c.commits_distinct;
                prepares_backed = c.prepares_backed;
              })
        | inr z ↦ absurd (none-ne-some (rw z at h))
      ]
  advance-Certified o o' n Stage.execute size c h =
      elim (Bool-cases (is_ready_for_execute n o && at_commit o.stage)) [
        | inl z ↦
            subst Certified (some-injective (record o { stage = Stage.execute }) o' (rw z at h))
              (record {
                prepared = λ _. c.prepared (ground arith);
                committed = λ _. (n, size, ground arith);
                prepares_distinct = c.prepares_distinct;
                commits_distinct = c.commits_distinct;
                prepares_backed = c.prepares_backed;
              })
        | inr z ↦ absurd (none-ne-some (rw z at h))
      ]

  -- In every state that an operation reaches by calls in which the swarm takes only sizes of a
  -- given set, and a prepare is recorded only where its sender is known to have sent it for the key
  -- of the operation: if the operation is prepared, it has the request, the preprepare and the
  -- prepares of at least a majority of a swarm of one of these sizes; if it is committed, it has
  -- also the commits of such a majority; no sender counts twice; and the sender of each prepare is
  -- known to have sent it for this operation.
  pub Reachable-Certified : {o : Operation D C} → Reachable o → Certified o
  unfolding construct is_prepared is_committed Sets.member
  Reachable-Certified (constructed d c view sequence hash) = record {
    prepared = λ x. absurd (false-ne-true x);
    committed = λ x. absurd (false-ne-true x);
    prepares_distinct = tt;
    commits_distinct = tt;
    prepares_backed = λ p m. absurd (false-ne-true m);
  }
  Reachable-Certified (requested {o} e r) = requested-Certified o e (Reachable-Certified r)
  Reachable-Certified (recorded {o} {o'} t e r b h) =
      record_pbft_msg-Certified o o' t e (Reachable-Certified r) b h
  Reachable-Certified (advanced {o} {o'} n s size r h) =
      advance-Certified o o' n s size (Reachable-Certified r) h
