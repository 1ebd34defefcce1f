-- ===== src/Pbft/Core/Kept.antt =====
-- What the calls of an operation leave alone, and that they keep it settled.
use bluzelle.Base.{
  ℕ, ◌≡◌, refl, sym, ap, subst, Bool, true, false, ◌&&◌, Option, none, some, if◌then◌else◌, arith,
  Bool-cases, inl, inr, none-ne-some,
}
use mathlib.Core.Option.{some-injective}
use bluzelle.Bytes.{Bytes, bytes_eq}
use bluzelle.Map.{Map}
use bluzelle.Pbft.Operation.{
  Payload, Envelope, MsgType, Operation, Stage, record_request, record_pbft_msg,
  advance_operation_stage, is_preprepared, is_prepared, is_ready_for_commit, is_ready_for_execute,
  at_prepare, at_commit,
}
use bluzelle.Pbft.Operation.Stages.{
  World, Reachable, requested, recorded, advanced, Reachable-Certified,
}
use bluzelle.Pbft.Manager.{OperationKey, get_operation_key}
use bluzelle.Pbft.Messages.{Surroundings}
use bluzelle.Pbft.Core.{LogKey, maybe_record_request}
use bluzelle.Pbft.Core.Safe.{Accepted, Settled}

-- The key stays, and no preprepare is added.
pub record Follows {D C : Type 0} (o o' : Operation D C) : Type 0 where
  pub key : get_operation_key o' ≡ get_operation_key o
  pub preprepare : is_preprepared o' ≡ true → is_preprepared o ≡ true

module _ {D C : Type 0} (parse_db : Bytes → D × Bool) (parse_config : Bytes → C × Bool) where
  Follows-if :
      (b : Bool) (o x y : Operation D C)
      → Follows o x
      → Follows o y
      → Follows o (if b then x else y)
  Follows-if true o x y p q = p
  Follows-if false o x y p q = q

  pub record_request-Follows :
      (o : Operation D C) (e : Envelope) → Follows o (record_request parse_db parse_config o e)
  unfolding record_request
  record_request-Follows o e = go e.payload
    where
      go :
          (p : Payload)
          → Follows o (record_request parse_db parse_config o (record e { payload = p }))
      go (Payload.database_msg t) =
          Follows-if (parse_db t).1 o _ _ (record { key = refl; preprepare = λ x. x })
            (record { key = refl; preprepare = λ x. x })
      go (Payload.pbft_internal_request t) =
          Follows-if (parse_config t).1 o _ _ (record { key = refl; preprepare = λ x. x })
            (record { key = refl; preprepare = λ x. x })
      go (Payload.pbft t) = record { key = refl; preprepare = λ x. x }
      go (Payload.checkpoint_msg t) = record { key = refl; preprepare = λ x. x }
      go Payload.other = record { key = refl; preprepare = λ x. x }

module _ {D C : Type 0} (parse_db : Bytes → D × Bool) (parse_config : Bytes → C × Bool)
    (w : World) where
  Settled-Follows :
      (a : Map LogKey OperationKey) (o o' : Operation D C)
      → Settled parse_db parse_config w a o
      → Reachable parse_db parse_config w o'
      → Follows o o'
      → Settled parse_db parse_config w a o'
  Settled-Follows a o o' s r f = record {
    reachable = r;
    accepted_first = λ e. subst (Accepted a) (sym f.key) (s.accepted_first (f.preprepare e));
  }

  pub record_request-Settled :
      (a : Map LogKey OperationKey) (o : Operation D C) (e : Envelope)
      → Settled parse_db parse_config w a o
      → Settled parse_db parse_config w a (record_request parse_db parse_config o e)
  record_request-Settled a o e s =
      Settled-Follows a o _ s (requested e s.reachable)
        (record_request-Follows parse_db parse_config o e)

  -- A preprepare may be recorded if it is the accepted one.
  pub record_pbft_msg-Settled :
      (a : Map LogKey OperationKey) (o o' : Operation D C) (t : MsgType) (e : Envelope)
      → Settled parse_db parse_config w a o
      → (t ≡ MsgType.preprepare → Accepted a (get_operation_key o))
      → (t ≡ MsgType.prepare → w.backed (get_operation_key o) e.sender)
      → record_pbft_msg o t e ≡ some o'
      → Settled parse_db parse_config w a o' × (get_operation_key o' ≡ get_operation_key o)
  unfolding record_pbft_msg
  record_pbft_msg-Settled a o o' MsgType.preprepare e s h b q =
      let same : record o { preprepare_message = some e } ≡ o' = some-injective _ o' q in
      let k : get_operation_key o' ≡ get_operation_key o = ap get_operation_key (sym same) in
      (
        record {
          reachable = recorded MsgType.preprepare e s.reachable b q;
          accepted_first = λ _. subst (Accepted a) (sym k) (h refl);
        },
        k,
      )
  record_pbft_msg-Settled a o o' MsgType.prepare e s h b q =
      let f : Follows o o' =
        subst (Follows o) (some-injective _ o' q) (record { key = refl; preprepare = λ x. x }) in
      (Settled-Follows a o o' s (recorded MsgType.prepare e s.reachable b q) f, f.key)
  record_pbft_msg-Settled a o o' MsgType.commit e s h b q =
      let f : Follows o o' =
        subst (Follows o) (some-injective _ o' q) (record { key = refl; preprepare = λ x. x }) in
      (Settled-Follows a o o' s (recorded MsgType.commit e s.reachable b q) f, f.key)
  record_pbft_msg-Settled a o o' MsgType.viewchange e s h b q = absurd (none-ne-some q)
  record_pbft_msg-Settled a o o' MsgType.newview e s h b q = absurd (none-ne-some q)
  record_pbft_msg-Settled a o o' MsgType.undefined e s h b q = absurd (none-ne-some q)

  -- The operation after a step of its stage.
  pub record Advanced (a : Map LogKey OperationKey) (o o' : Operation D C) (s : Stage)
      : Type 0 where
    pub settled : Settled parse_db parse_config w a o'
    pub key : get_operation_key o' ≡ get_operation_key o
    pub stage : o'.stage ≡ s

  pub advance-Settled :
      (a : Map LogKey OperationKey) (n : ℕ) (o o' : Operation D C) (s : Stage)
      → w.is_size n
      → Settled parse_db parse_config w a o
      → advance_operation_stage n o s ≡ some o'
      → Advanced a o o' s
  unfolding advance_operation_stage
  advance-Settled a n o o' Stage.prepare size s q = absurd (none-ne-some q)
  advance-Settled a n o o' Stage.commit size s q =
      elim (Bool-cases (is_ready_for_commit n o && at_prepare o.stage)) [
        | inl z ↦
            let same : record o { stage = Stage.commit } ≡ o' = some-injective _ o' (rw z at q) in
            let f : Follows o o' =
              subst (Follows o) same (record { key = refl; preprepare = λ x. x }) in
            record {
              settled = Settled-Follows a o o' s (advanced n Stage.commit size s.reachable q) f;
              key = f.key;
              stage = ap (λ x. x.stage) (sym same);
            }
        | inr z ↦ absurd (none-ne-some (rw z at q))
      ]
  advance-Settled a n o o' Stage.execute size s q =
      elim (Bool-cases (is_ready_for_execute n o && at_commit o.stage)) [
        | inl z ↦
            let same : record o { stage = Stage.execute } ≡ o' = some-injective _ o' (rw z at q) in
            let f : Follows o o' =
              subst (Follows o) same (record { key = refl; preprepare = λ x. x }) in
            record {
              settled = Settled-Follows a o o' s (advanced n Stage.execute size s.reachable q) f;
              key = f.key;
              stage = ap (λ x. x.stage) (sym same);
            }
        | inr z ↦ absurd (none-ne-some (rw z at q))
      ]

  -- A prepared operation has an accepted preprepare.
  pub prepared-Accepted :
      (a : Map LogKey OperationKey) (o : Operation D C)
      → Settled parse_db parse_config w a o
      → is_prepared o ≡ true
      → Accepted a (get_operation_key o)
  unfolding is_ready_for_commit
  prepared-Accepted a o s p =
      let (n, size, ready) = (Reachable-Certified parse_db parse_config w s.reachable).prepared p in
      s.accepted_first (ground arith)

module _ {D C : Type 0} (ctx : Surroundings D C) (w : World) where
  pub maybe_record_request-Settled :
      (a : Map LogKey OperationKey) (r : Option Envelope) (o : Operation D C)
      → Settled ctx.parse_db ctx.parse_config w a o
      → Settled ctx.parse_db ctx.parse_config w a (maybe_record_request ctx r o)
        × (get_operation_key (maybe_record_request ctx r o) ≡ get_operation_key o)
  unfolding maybe_record_request
  maybe_record_request-Settled a none o s = (s, refl)
  maybe_record_request-Settled a (some e) o s =
      elim (Bool-cases (bytes_eq (ctx.hash e) o.request_hash)) [
        | inl z ↦ rw z (
          record_request-Settled ctx.parse_db ctx.parse_config w a o e s,
          (record_request-Follows ctx.parse_db ctx.parse_config o e).key,
        )
        | inr z ↦ rw z (s, refl)
      ]
