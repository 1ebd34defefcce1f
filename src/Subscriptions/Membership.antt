-- ===== src/Subscriptions/Membership.antt =====
-- Who is subscribed to what, after each operation of crud/subscription_manager.cpp.
use bluzelle.Base.{
  ℕ, ◌≡◌, refl, ap, Bool, true, false, ◌&&◌, ◌||◌, Option, none, some, arith, ◌==◌, ==_iff,
  if◌then◌else◌, Option-cases, inl, inr,
}
use bluzelle.Bytes.{Bytes, bytes_eq}
use bluzelle.Bytes.Order.{bytes_ordered, number_ordered, bytes_eq_iff}
use bluzelle.Map.{Map, lookup, insert, erase, inner}
use bluzelle.Map.Laws.{lookup-insert, lookup-erase}
use bluzelle.Protocol.{Body}
use bluzelle.Subscriptions.{
  Subscriptions, Sessions, Keys, add_key, add_subscriber, set_seq, subscribe, unsubscribe,
  msg_duplicate_sub, msg_invalid_sub, msg_invalid_key, msg_invalid_uuid,
}

-- What is held for a session and a transaction below a key, and for a key below a database.
unfoldable pub in_sessions : Sessions → ℕ → ℕ → Option ℕ
in_sessions sessions session transaction = lookup transaction (inner (lookup session sessions))

unfoldable pub in_keys : Keys → Bytes → ℕ → ℕ → Option ℕ
in_keys ks key session transaction = in_sessions (inner (lookup key ks)) session transaction

unfoldable pub subscriber : Subscriptions → Bytes → Bytes → ℕ → ℕ → Option ℕ
subscriber m uuid key session transaction =
    in_keys (inner (lookup uuid m.subscribers)) key session transaction

pub inner-if :
    {K V : Type 0} (b : Bool) (x : Map K V) (o : Option (Map K V))
    → inner (if b then some x else o) ≡ (if b then x else inner o)
inner-if true x o = refl
inner-if false x o = refl

in_sessions-insert :
    (sessions : Sessions) (s s' t t' v : ℕ)
    → in_sessions (insert s (insert t v (inner (lookup s sessions))) sessions) s' t'
      ≡ (if s == s' && t == t' then some v else in_sessions sessions s' t')
unfolding in_sessions
in_sessions-insert sessions s s' t t' v =
    rw (lookup-insert, inner-if)
      (ground (arith, lookup-insert t t' v (inner (lookup s sessions)), ==_iff s s'))

in_keys-add_key :
    (ks : Keys) (k k' : Bytes) (s s' t t' : ℕ)
    → in_keys (add_key ks k s t) k' s' t'
      ≡ (if bytes_eq k k' && (s == s' && t == t') then some s else in_keys ks k' s' t')
unfolding in_keys add_key
in_keys-add_key ks k k' s s' t t' =
    rw (lookup-insert, inner-if)
      (ground (arith, in_sessions-insert (inner (lookup k ks)) s s' t t' s, bytes_eq_iff k k'))

unfoldable pub same_place : Bytes → Bytes → Bytes → Bytes → ℕ → ℕ → ℕ → ℕ → Bool
same_place u u' k k' s s' t t' = bytes_eq u u' && (bytes_eq k k' && (s == s' && t == t'))

pub subscriber-add_subscriber :
    (m : Subscriptions) (u u' k k' : Bytes) (s s' t t' : ℕ)
    → subscriber (add_subscriber m u k s t) u' k' s' t'
      ≡ (if same_place u u' k k' s s' t t' then some s else subscriber m u' k' s' t')
unfolding subscriber add_subscriber same_place
subscriber-add_subscriber m u u' k k' s s' t t' =
    rw (lookup-insert, inner-if)
      (ground
        (arith, in_keys-add_key (inner (lookup u m.subscribers)) k k' s s' t t', bytes_eq_iff u u'))

abbrev pub present : Option ℕ → Bool
present none = false
present (some x) = true

-- The four lookups of `subscribe` and `unsubscribe`, and what they find at the end.
pub subscribe_cases {ℓ} :
    (P : Subscriptions × Body → Type ℓ) (m : Subscriptions) (u k : Bytes) (t s : ℕ)
    → (present (subscriber m u k s t) ≡ false
        → (m' : Subscriptions) → m'.subscribers ≡ (add_subscriber m u k s t).subscribers
        → P (m', Body.unset))
    → (present (subscriber m u k s t) ≡ true → P (m, Body.error msg_duplicate_sub))
    → P (subscribe m u k t s)
unfolding subscribe subscriber in_keys in_sessions set_seq lookup
subscribe_cases P m u k t s fresh old = elim (Option-cases (lookup u m.subscribers)) [
  | inl a ↦ rw (subscribe, a) (fresh (rw a) (add_subscriber m u k s t) refl)
  | inr (ks, a) ↦ elim (Option-cases (lookup k ks)) [
    | inl b ↦
        rw (subscribe, a, b) (fresh (rw (a, b)) (set_seq (add_subscriber m u k s t) u k 0) refl)
    | inr (sessions, b) ↦ elim (Option-cases (lookup s sessions)) [
      | inl d ↦ rw (subscribe, a, b, d) (fresh (rw (a, b, d)) (add_subscriber m u k s t) refl)
      | inr (transactions, d) ↦ elim (Option-cases (lookup t transactions)) [
        | inl f ↦
            rw (subscribe, a, b, d, f) (fresh (rw (a, b, d, f)) (add_subscriber m u k s t) refl)
        | inr (x, f) ↦ rw (subscribe, a, b, d, f) (old (rw (a, b, d, f)))
      ]
    ]
  ]
]

pub subscriber-same :
    (m m' : Subscriptions) (u k : Bytes) (s t : ℕ)
    → m'.subscribers ≡ m.subscribers
    → subscriber m' u k s t ≡ subscriber m u k s t
unfolding subscriber
subscriber-same m m' u k s t e = ap (λ x. in_keys (inner (lookup u x)) k s t) e

-- After `subscribe` the session holds the key under that transaction, and all else is subscribed as
-- before; the answer is the error DUPLICATE_SUB exactly if that subscription was there already.
pub subscribe_lem :
    (m : Subscriptions) (u k : Bytes) (t s : ℕ)
    → ((u' k' : Bytes) (s' t' : ℕ)
        → present (subscriber (subscribe m u k t s).0 u' k' s' t')
          ≡ same_place u u' k k' s s' t t' || present (subscriber m u' k' s' t'))
      × ((subscribe m u k t s).1
          ≡ (if present (subscriber m u k s t) then Body.error msg_duplicate_sub else Body.unset))
unfolding same_place
subscribe_lem m u k t s =
    subscribe_cases
      (λ r.
        ((u' k' : Bytes) (s' t' : ℕ)
          → present (subscriber r.0 u' k' s' t')
            ≡ same_place u u' k k' s s' t t' || present (subscriber m u' k' s' t'))
        × (r.1 ≡ (
            if present (subscriber m u k s t) then Body.error msg_duplicate_sub else Body.unset)))
      m u k t s
      (λ e m' f. (
        λ u' k' s' t'.
            rw
              (
                subscriber-same (add_subscriber m u k s t) m' u' k' s' t' f,
                subscriber-add_subscriber,
              )
              (ground arith),
        rw e,
      ))
      (λ e. (
        λ u' k' s' t'.
            ground (arith, e, bytes_eq_iff u u', bytes_eq_iff k k', ==_iff s s', ==_iff t t'),
        rw e,
      ))

-- Why a subscription that is not there cannot be removed.
unfoldable pub refusal_below : Bytes → Option Keys → Bytes
refusal_below k none = msg_invalid_uuid
refusal_below k (some ks) = elim (lookup k ks) [ none ↦ msg_invalid_key | some _ ↦ msg_invalid_sub ]

-- The subscriptions without one of them.
unfoldable pub without : Subscriptions → Bytes → Bytes → ℕ → ℕ → Subscriptions
without m u k s t =
    let ks = inner (lookup u m.subscribers) in
    let sessions = inner (lookup k ks) in
    let transactions = inner (lookup s sessions) in
    record m {
      subscribers = insert u (insert k (insert s (erase t transactions) sessions) ks) m.subscribers;
    }

pub subscriber-without :
    (m : Subscriptions) (u u' k k' : Bytes) (s s' t t' : ℕ)
    → subscriber (without m u k s t) u' k' s' t'
      ≡ (if same_place u u' k k' s s' t t' then none else subscriber m u' k' s' t')
unfolding subscriber without same_place in_keys in_sessions
subscriber-without m u u' k k' s s' t t' =
    rw (lookup-insert, inner-if)
      (ground (
        arith,
        lookup-insert k k'
            (insert s
              (erase t (inner (lookup s (inner (lookup k (inner (lookup u m.subscribers)))))))
              (inner (lookup k (inner (lookup u m.subscribers)))))
            (inner (lookup u m.subscribers)),
        lookup-insert s s'
            (erase t (inner (lookup s (inner (lookup k (inner (lookup u m.subscribers)))))))
            (inner (lookup k (inner (lookup u m.subscribers)))),
        lookup-erase t t' (inner (lookup s (inner (lookup k (inner (lookup u m.subscribers)))))),
        bytes_eq_iff u u',
        bytes_eq_iff k k',
        ==_iff s s',
      ))

pub unsubscribe_cases {ℓ} :
    (P : Subscriptions × Body → Type ℓ) (m : Subscriptions) (u k : Bytes) (t s : ℕ)
    → (present (subscriber m u k s t) ≡ false
        → P (m, Body.error (refusal_below k (lookup u m.subscribers))))
    → (present (subscriber m u k s t) ≡ true → P (without m u k s t, Body.unset))
    → P (unsubscribe m u k t s)
unfolding unsubscribe subscriber in_keys in_sessions lookup without refusal_below
unsubscribe_cases P m u k t s absent there = elim (Option-cases (lookup u m.subscribers)) [
  | inl a ↦ rw (unsubscribe, a) (rw a at (absent (rw a)))
  | inr (ks, a) ↦ elim (Option-cases (lookup k ks)) [
    | inl b ↦ rw (unsubscribe, a, b) (rw (a, refusal_below, b) at (absent (rw (a, b))))
    | inr (sessions, b) ↦ elim (Option-cases (lookup s sessions)) [
      | inl d ↦ rw (unsubscribe, a, b, d) (rw (a, refusal_below, b) at (absent (rw (a, b, d))))
      | inr (transactions, d) ↦ elim (Option-cases (lookup t transactions)) [
        | inl f ↦
            rw (unsubscribe, a, b, d, f) (rw (a, refusal_below, b) at (absent (rw (a, b, d, f))))
        | inr (x, f) ↦ rw (unsubscribe, a, b, d, f) (rw (a, b, d) at (there (rw (a, b, d, f))))
      ]
    ]
  ]
]

-- After `unsubscribe` the session does not hold the key under that transaction, and all else is
-- subscribed as before; the answer is an error, which says whether the database, the key or the
-- subscription was unknown, exactly if that subscription was not there.
pub unsubscribe_lem :
    (m : Subscriptions) (u k : Bytes) (t s : ℕ)
    → ((u' k' : Bytes) (s' t' : ℕ)
        → subscriber (unsubscribe m u k t s).0 u' k' s' t'
          ≡ (if same_place u u' k k' s s' t t' then none else subscriber m u' k' s' t'))
      × ((unsubscribe m u k t s).1 ≡ (
          if present (subscriber m u k s t)
          then Body.unset
          else Body.error (refusal_below k (lookup u m.subscribers))))
unfolding same_place
unsubscribe_lem m u k t s =
    unsubscribe_cases
      (λ r.
        ((u' k' : Bytes) (s' t' : ℕ)
          → subscriber r.0 u' k' s' t'
            ≡ (if same_place u u' k k' s s' t t' then none else subscriber m u' k' s' t'))
        × (r.1 ≡ (
            if present (subscriber m u k s t)
            then Body.unset
            else Body.error (refusal_below k (lookup u m.subscribers)))))
      m u k t s
      (λ e. (
        λ u' k' s' t'.
            ground (arith, e, bytes_eq_iff u u', bytes_eq_iff k k', ==_iff s s', ==_iff t t'),
        rw e,
      ))
      (λ e. (λ u' k' s' t'. subscriber-without m u u' k k' s s' t t', rw e))
