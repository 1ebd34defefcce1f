-- ===== src/Subscriptions/Notify.antt =====
-- Who is told of a commit, by crud/subscription_manager.cpp.
use bluzelle.Base.{
  ℕ, ◌+◌, ◌%◌, ◌^◌, ◌≡◌, refl, ap, sym, ◌∙◌, Bool, true, false, false-ne-true, subst, ◌&&◌, ◌||◌,
  List, [], ◌∷◌, ◌++◌, Option, none, some, arith, ◌==◌, ==_iff, if◌then◌else◌, Option-cases,
  Bool-cases, inl, inr, any, filter, filter-append, map,
}
use mathlib.Core.List.{map-append, Memᴰ}
use bluzelle.Bytes.{Bytes, bytes_eq}
use bluzelle.Bytes.Order.{bytes_ordered, number_ordered, bytes_eq_iff}
use bluzelle.Map.{lookup, inner}
use bluzelle.Map.Laws.{lookup-insert}
use bluzelle.Protocol.{Message, Request, Response, Event}
use bluzelle.Subscriptions.{
  Subscriptions, Transactions, Sessions, notify_transactions, notify_all, notify_sessions,
  inspect_commit, notice, get_seq, set_seq, number_or_zero,
}
use bluzelle.Subscriptions.Membership.{inner-if, subscriber, in_keys, in_sessions}

-- The transactions and the sessions that hold a key, in the order in which they are told.
unfoldable pub flat : Sessions → List (ℕ × ℕ)
flat [] = []
flat ((session, transactions) ∷ rest) = transactions ++ flat rest

abbrev pub next_seq : Subscriptions → Bytes → Bytes → ℕ
next_seq m u k = (get_seq m u k + 1) % 2 ^ 64

abbrev pub told : (ℕ → Bool) → List (ℕ × ℕ) → List (ℕ × ℕ)
told alive ws = filter (λ w. alive w.1) ws

abbrev pub notices : (ℕ → Response) → List (ℕ × ℕ) → List Event
notices make ws = map (λ w. Event.notification w.1 (make w.0)) ws

module _ (alive : ℕ → Bool) (make : ℕ → Response) where
  notify_transactions-notices :
      (ts : Transactions) → notify_transactions alive make ts ≡ notices make (told alive ts)
  unfolding notify_transactions filter
  notify_transactions-notices [] = refl
  notify_transactions-notices ((t, s) ∷ ts) = ground (arith, notify_transactions-notices ts)

  notify_all-notices :
      (ss : Sessions) → notify_all alive make ss ≡ notices make (told alive (flat ss))
  unfolding notify_all flat filter
  notify_all-notices [] = refl
  notify_all-notices ((s, ts) ∷ ss) =
      rw
        (
          notify_transactions-notices ts,
          notify_all-notices ss,
          filter-append (λ w. alive w.1) ts (flat ss),
        )
        (sym (
          map-append (λ w. Event.notification w.1 (make w.0)) (told alive ts)
            (told alive (flat ss))))

number_or_zero_if :
    (b : Bool) (n : ℕ) (o : Option ℕ)
    → number_or_zero (if b then some n else o) ≡ (if b then n else number_or_zero o)
number_or_zero_if true n o = refl
number_or_zero_if false n o = refl

get_seq-set_seq :
    (m : Subscriptions) (u u' k k' : Bytes) (n : ℕ)
    → get_seq (set_seq m u k n) u' k'
      ≡ (if bytes_eq u u' && bytes_eq k k' then n else get_seq m u' k')
unfolding get_seq set_seq
get_seq-set_seq m u u' k k' n =
    rw (lookup-insert, inner-if)
      (ground (arith, lookup-insert k k' n (inner (lookup u m.key_seq_number)), bytes_eq_iff u u'))

-- Whether the key has an entry, with or without transactions in it.
abbrev pub is_held : Sessions → Bool
is_held [] = false
is_held (e ∷ ss) = true

abbrev pub sessions_of : Subscriptions → Bytes → Bytes → Sessions
sessions_of m u k = inner (lookup k (inner (lookup u m.subscribers)))

-- The outcome of the notification of a key.
pub record Notifies (alive : ℕ → Bool) (m : Subscriptions) (u : Bytes) (upd : Bool) (k v : Bytes)
    (r : Subscriptions × List Event) : Type 0 where
  pub events :
      r.1 ≡ notices (notice u k v upd (next_seq m u k)) (told alive (flat (sessions_of m u k)))
  pub seq :
      (u' k' : Bytes)
      → get_seq r.0 u' k' ≡ (
          if bytes_eq u u' && (bytes_eq k k' && is_held (sessions_of m u k))
          then next_seq m u k
          else get_seq m u' k')
  pub subscribers : r.0.subscribers ≡ m.subscribers

notify_sessions-Notifies :
    (alive : ℕ → Bool) (m : Subscriptions) (u : Bytes) (upd : Bool) (k v : Bytes)
    → Notifies alive m u upd k v (notify_sessions alive m u upd k v)
unfolding notify_sessions flat filter lookup set_seq
notify_sessions-Notifies alive m u upd k v = elim (Option-cases (lookup u m.subscribers)) [
  | inl e ↦
      rw (notify_sessions, e)
        (record { events = rw e; seq = λ u' k'. rw e (ground arith); subscribers = refl })
  | inr (ks, e) ↦ elim (Option-cases (lookup k ks)) [
    | inl f ↦
        rw (notify_sessions, e, f)
          (record {
            events = rw (e, f);
            seq = λ u' k'. rw (e, f) (ground arith);
            subscribers = refl;
          })
    | inr (ss, f) ↦ rw (notify_sessions, e, f) (go ss (rw (e, f)))
  ]
]
  where
    go :
        (ss : Sessions)
        → sessions_of m u k ≡ ss
        → Notifies alive m u upd k v (elim ss as (λ _. Subscriptions × List Event) [
          | [] ↦ (m, [])
          | first ∷ others ↦ (
            set_seq m u k (next_seq m u k),
            notify_all alive (notice u k v upd (next_seq m u k)) (first ∷ others),
          )
        ])
    go [] q = record { events = rw q; seq = λ u' k'. rw q (ground arith); subscribers = refl }
    go (first ∷ others) q = record {
      events = rw q (notify_all-notices alive (notice u k v upd (next_seq m u k)) (first ∷ others));
      seq = λ u' k'.
          rw q (get_seq-set_seq m u u' k k' (next_seq m u k) ∙ ground (arith, bytes_eq_iff u u'));
      subscribers = refl;
    }

-- What a request changes: whether the record is there afterwards, its key and its value.
abbrev pub change_of : Message → Option (Bool × Bytes × Bytes)
change_of (Message.create k v e) = some (true, k, v)
change_of (Message.update k v e) = some (true, k, v)
change_of (Message.delete k) = some (false, k, [])
change_of _ = none

abbrev pub Told :
    (ℕ → Bool)
    → Subscriptions
    → Bytes
    → Option (Bool × Bytes × Bytes)
    → Subscriptions × List Event
    → Type 0
Told alive m u none r = r ≡ (m, [])
Told alive m u (some (upd, k, v)) r = Notifies alive m u upd k v r

-- A request that creates, updates or deletes a record sends one notification for each transaction
-- of an existing session that holds the key, in the order of the table and with the next sequence
-- number, counts that number up if the key is held and no other, and leaves the subscriptions as
-- they are; any other request does nothing.
pub inspect_commit_lem :
    (alive : ℕ → Bool) (m : Subscriptions) (r : Request)
    → Told alive m r.header.db_uuid (change_of r.msg) (inspect_commit alive m r)
unfolding inspect_commit
inspect_commit_lem alive m r = go r.msg
  where
    go :
        (msg : Message)
        → Told alive m r.header.db_uuid
            (change_of msg)
            (inspect_commit alive m (record r { msg = msg }))
    go (Message.create k v e) = notify_sessions-Notifies alive m r.header.db_uuid true k v
    go (Message.update k v e) = notify_sessions-Notifies alive m r.header.db_uuid true k v
    go (Message.delete k) = notify_sessions-Notifies alive m r.header.db_uuid false k []
    go _ = refl

-- Whether the list has the transaction with the session.
abbrev pub has_pair : ℕ → ℕ → List (ℕ × ℕ) → Bool
has_pair t h ws = any (λ w. w.0 == t && w.1 == h) ws

has_pair-append :
    (t h : ℕ) (xs ys : List (ℕ × ℕ)) → has_pair t h (xs ++ ys) ≡ has_pair t h xs || has_pair t h ys
unfolding any
has_pair-append t h [] ys = refl
has_pair-append t h (x ∷ xs) ys = ground (arith, has_pair-append t h xs ys)

has_pair-lookup : (t h : ℕ) (ts : Transactions) → lookup t ts ≡ some h → has_pair t h ts ≡ true
unfolding any lookup
has_pair-lookup t h [] e = cc
has_pair-lookup t h ((t', h') ∷ ts) e = ground (arith, has_pair-lookup t h ts)

has_pair-flat :
    (s t h : ℕ) (ss : Sessions) → in_sessions ss s t ≡ some h → has_pair t h (flat ss) ≡ true
unfolding in_sessions flat any lookup
has_pair-flat s t h [] e = cc
has_pair-flat s t h ((s', ts) ∷ ss) e =
    ground (arith, has_pair-append t h ts (flat ss), has_pair-lookup t h ts, has_pair-flat s t h ss)

has_pair-told :
    (alive : ℕ → Bool) (t h : ℕ) (ws : List (ℕ × ℕ))
    → alive h ≡ true
    → has_pair t h ws ≡ true
    → has_pair t h (told alive ws) ≡ true
unfolding any filter
has_pair-told alive t h [] a e = cc
has_pair-told alive t h ((t', h') ∷ ws) a e = elim (Bool-cases (alive h')) [
  | inl b ↦ rw b (ground (arith, has_pair-told alive t h ws a))
  | inr b ↦ rw b (has_pair-told alive t h ws a (ground (arith, ==_iff h' h)))
]

notices-Mem :
    (make : ℕ → Response) (t h : ℕ) (ws : List (ℕ × ℕ))
    → has_pair t h ws ≡ true
    → Memᴰ (Event.notification h (make t)) (notices make ws)
unfolding any
notices-Mem make t h [] e = absurd (false-ne-true e)
notices-Mem make t h ((t', h') ∷ ws) e = elim (Bool-cases (t' == t && h' == h)) [
  | inl b ↦ let p : t ≡ t' = ground arith in let q : h ≡ h' = ground arith in Memᴰ.head (cc (p, q))
  | inr b ↦ Memᴰ.tail (notices-Mem make t h ws (rw b at e))
]

-- A holder of the key that exists is among those notified.
pub inspect_commit-Mem :
    (alive : ℕ → Bool) (m : Subscriptions) (r : Request) (k v : Bytes) (upd : Bool) (s t h : ℕ)
    → change_of r.msg ≡ some (upd, k, v)
    → subscriber m r.header.db_uuid k s t ≡ some h
    → alive h ≡ true
    → Memᴰ
        (Event.notification h (notice r.header.db_uuid k v upd (next_seq m r.header.db_uuid k) t))
        (inspect_commit alive m r).1
unfolding subscriber in_keys
inspect_commit-Mem alive m r k v upd s t h c e a =
    let n : Notifies alive m r.header.db_uuid upd k v (inspect_commit alive m r) =
      rw c at (inspect_commit_lem alive m r) in
    subst (Memᴰ _) (sym n.events) (
      notices-Mem _ t h _
        (has_pair-told alive t h _ a (has_pair-flat s t h (sessions_of m r.header.db_uuid k) e)))

-- A commit subscribes nobody and cancels nothing.
pub inspect_commit-subscribers :
    (alive : ℕ → Bool) (m : Subscriptions) (r : Request)
    → (inspect_commit alive m r).0.subscribers ≡ m.subscribers
inspect_commit-subscribers alive m r = go (change_of r.msg) (inspect_commit_lem alive m r)
  where
    go :
        (c : Option (Bool × Bytes × Bytes))
        → Told alive m r.header.db_uuid c (inspect_commit alive m r)
        → (inspect_commit alive m r).0.subscribers ≡ m.subscribers
    go none h = ap (λ x. x.0.subscribers) h
    go (some (upd, k, v)) h = h.subscribers
