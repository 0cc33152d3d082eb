-- ===== src/Node/Invariant.antt =====
-- What holds in every state that a node reaches.
use beacon_node.Base.{
  ℕ, List, [], ◌∷◌, ◌++◌, Bool, true, ◌≡◌, inl, inr, refl, ◌∙◌, subst, Option, none, some, arith,
  All, All-map, All-append, All-filter_of, length, modify_first, find_if, not, leb, ltb,
  append_assoc, Bool-cases,
}
use beacon_node.Base.Text.{Bytes}
use beacon_node.Types.{AgentRecord, TimePoint}
use beacon_node.Crypto.{Sodium}
use beacon_node.SecureBuffer.{Allocator, SecureBuffer}
use beacon_node.Identity.{find_key}
use beacon_node.Identity.Pinning.{
  HasValidKeys, verify_and_register-HasValidKeys, find_key-verify_and_register,
}
use beacon_node.Registry.{AgentRegistry, has_id, upsert, refresh_heartbeat, purge_expired, refuses}
use beacon_node.Registry.Distinct.{IsValid}
use beacon_node.Registry.Invariant.{
  upsert-IsValid, refresh_heartbeat-IsValid, purge_expired-IsValid,
}
use beacon_node.Node.Covered.{
  IsOrigin, Renewed-IsOrigin, Covered, Covered-append_left, Covered-moved, Covered-Renewed,
  Covered-snoc,
}
use beacon_node.Node.{
  Renewed, Node, first_start, Step, store, log, renew, expire, pin, Reach, here, next,
}

pub All-modify_first :
    (P : AgentRecord → Type 0) (p : AgentRecord → Bool) (f : AgentRecord → AgentRecord)
    (xs : List AgentRecord)
    → ((x : AgentRecord) → find_if p xs ≡ some x → P x → P (f x))
    → All P xs
    → All P (modify_first p f xs)
unfolding modify_first find_if
All-modify_first P p f [] h all = tt
All-modify_first P p f (x ∷ xs) h (hx, all) = elim (Bool-cases (p x)) [
  | inl e ↦ rw (e, modify_first) (h x (ground (arith, e)) hx, all)
  | inr e ↦
      rw (e, modify_first)
        (hx, All-modify_first P p f xs (λ y q hy. h y (ground (arith, e, q)) hy) all)
]

-- The ids of the registry are distinct, the callback is set, every stored record comes from one that was
-- handed to it, and
-- the buffers of the trust store are valid.
pub record Inv (R : AgentRecord → AgentRecord → Type 0) (n : Node) : Type 0 where
  pub valid : IsValid n.registry
  pub callback : n.registry.has_callback ≡ true
  pub covered : All (Covered R (n.logged ++ n.pending)) n.registry.records
  pub keys : HasValidKeys n.identity.trust_store

module _ (R : AgentRecord → AgentRecord → Type 0) (origin : IsOrigin R) where
  -- What a store leaves covered: the stored record was handed to the callback.
  upsert-Covered :
      (g : AgentRegistry) (r : AgentRecord) (l : List AgentRecord)
      → g.has_callback ≡ true
      → All (Covered R l) g.records
      → All (Covered R (l ++ (upsert g r).notified)) (upsert g r).registry.records
  unfolding upsert
  upsert-Covered g r l cb all = by_case (find_if (has_id r.agent_id) g.records) refl
    where
      longer : (zs : List AgentRecord) → All (Covered R (l ++ zs)) g.records
      longer zs =
          All-map (Covered R l) (Covered R (l ++ zs)) (λ x h. Covered-append_left R l zs x h)
            g.records all

      by_case :
          (found : Option AgentRecord)
          → find_if (has_id r.agent_id) g.records ≡ found
          → All (Covered R (l ++ (upsert g r).notified)) (upsert g r).registry.records
      by_case none e =
          rw (e, cb, upsert)
            (All-append (Covered R (l ++ r ∷ [])) g.records (r ∷ []) (longer (r ∷ []))
              (Covered-snoc R origin l r, tt))
      by_case (some x) e = elim (Bool-cases (refuses x r)) [
        | inl refused ↦ rw (e, refused, upsert) (longer [])
        | inr admitted ↦
            rw (e, admitted, cb, upsert)
              (All-modify_first (Covered R (l ++ r ∷ [])) (has_id r.agent_id) (λ _. r) g.records
                (λ y q h. Covered-snoc R origin l r) (longer (r ∷ [])))
      ]

  refresh_heartbeat-Covered :
      (g : AgentRegistry) (i : Bytes) (t : TimePoint) (k : ℕ) (l : List AgentRecord)
      → All (Covered R l) g.records
      → All (Covered R l) (refresh_heartbeat g i t k).0.records
  unfolding refresh_heartbeat
  refresh_heartbeat-Covered g i t k l all = by_case (find_if (has_id i) g.records) refl
    where
      by_case :
          (found : Option AgentRecord)
          → find_if (has_id i) g.records ≡ found
          → All (Covered R l) (refresh_heartbeat g i t k).0.records
      by_case none e = rw (e, refresh_heartbeat) all
      by_case (some x) e = elim (Bool-cases (ltb k x.revision)) [
        | inl stale ↦ rw (e, stale, refresh_heartbeat) all
        | inr fresh ↦
            rw (e, fresh, refresh_heartbeat)
              (All-modify_first (Covered R l) (has_id i)
                (λ (y : AgentRecord). record y { expires_at = t; revision = k }) g.records
                (λ y q h.
                  Covered-Renewed R origin l y (record y { expires_at = t; revision = k })
                    (record { same = refl; newer = ground (arith, e, q) }) h)
                all)
      ]

upsert-has_callback :
    (g : AgentRegistry) (r : AgentRecord) → (upsert g r).registry.has_callback ≡ g.has_callback
unfolding upsert
upsert-has_callback g r = ground arith

refresh_heartbeat-has_callback :
    (g : AgentRegistry) (i : Bytes) (t : TimePoint) (k : ℕ)
    → (refresh_heartbeat g i t k).0.has_callback ≡ g.has_callback
unfolding refresh_heartbeat
refresh_heartbeat-has_callback g i t k = ground arith

first_start-Inv : Inv Renewed first_start
first_start-Inv = record {
  valid = record { distinct = tt };
  callback = refl;
  covered = tt;
  keys = tt;
}

module _ (fresh : Allocator) (sodium : Option Sodium) (sized : (k : ℕ) → length (fresh k) ≡ k)
    (R : AgentRecord → AgentRecord → Type 0) (origin : IsOrigin R) where
  -- A step keeps the invariant.
  pub Step-Inv : {n o : Node} → Step fresh sodium n o → Inv R n → Inv R o
  unfolding purge_expired
  Step-Inv {n} (store r) inv = record {
    valid = upsert-IsValid n.registry r inv.valid;
    callback = upsert-has_callback n.registry r ∙ inv.callback;
    covered =
        subst (λ l. All (Covered R l) (upsert n.registry r).registry.records)
          (append_assoc n.logged n.pending (upsert n.registry r).notified)
          (upsert-Covered R origin n.registry r (n.logged ++ n.pending) inv.callback inv.covered);
    keys = inv.keys;
  }
  Step-Inv {n} (log before after r e) inv = record {
    valid = inv.valid;
    callback = inv.callback;
    covered =
        All-map (Covered R (n.logged ++ n.pending))
          (Covered R ((n.logged ++ r ∷ []) ++ (before ++ after)))
          (λ x h.
            Covered-moved R n.logged before after r x
              (subst (λ (l : List AgentRecord). Covered R (n.logged ++ l) x) e h))
          n.registry.records inv.covered;
    keys = inv.keys;
  }
  Step-Inv {n} (renew i t k) inv = record {
    valid = refresh_heartbeat-IsValid n.registry i t k inv.valid;
    callback = refresh_heartbeat-has_callback n.registry i t k ∙ inv.callback;
    covered =
        refresh_heartbeat-Covered R origin n.registry i t k (n.logged ++ n.pending) inv.covered;
    keys = inv.keys;
  }
  Step-Inv {n} (expire now) inv = record {
    valid = purge_expired-IsValid n.registry now inv.valid;
    callback = inv.callback;
    covered =
        All-filter_of (Covered R (n.logged ++ n.pending))
          (λ (r : AgentRecord). not (leb r.expires_at now)) n.registry.records inv.covered;
    keys = inv.keys;
  }
  Step-Inv {n} (pin r) inv = record {
    valid = inv.valid;
    callback = inv.callback;
    covered = inv.covered;
    keys = verify_and_register-HasValidKeys fresh sodium n.identity r sized inv.keys;
  }

  pub Reach-Inv_from : {m n : Node} → Reach fresh sodium m n → Inv R m → Inv R n
  Reach-Inv_from here inv = inv
  Reach-Inv_from (next r st) inv = Step-Inv st (Reach-Inv_from r inv)

module _ (fresh : Allocator) (sodium : Option Sodium) (sized : (k : ℕ) → length (fresh k) ≡ k) where
  -- In every state that a node reaches from its first start, however the calls of its threads interleave,
  -- the agent ids of the registry are distinct, the buffers of the trust store are valid, and every stored
  -- record was handed to the callback: it is logged or its callback is pending, as it was before heartbeats
  -- changed its expiry and raised its revision.
  pub Reach-Inv : {n : Node} → Reach fresh sodium first_start n → Inv Renewed n
  Reach-Inv r = Reach-Inv_from fresh sodium sized Renewed Renewed-IsOrigin r first_start-Inv

Step-find_key :
    (fresh : Allocator) (sodium : Option Sodium) {n o : Node} (k : Bytes) (key : SecureBuffer)
    → Step fresh sodium n o
    → find_key k n.identity.trust_store ≡ some key
    → find_key k o.identity.trust_store ≡ some key
Step-find_key fresh sodium {n} k key (pin r) h =
    find_key-verify_and_register fresh sodium n.identity r k key h
Step-find_key fresh sodium k key (store r) h = h
Step-find_key fresh sodium k key (log before after r e) h = h
Step-find_key fresh sodium k key (renew i t j) h = h
Step-find_key fresh sodium k key (expire now) h = h

-- A key that is pinned for an agent stays pinned in every state that a node reaches.
pub Reach-find_key :
    (fresh : Allocator) (sodium : Option Sodium) {m n : Node} (k : Bytes) (key : SecureBuffer)
    → Reach fresh sodium m n
    → find_key k m.identity.trust_store ≡ some key
    → find_key k n.identity.trust_store ≡ some key
Reach-find_key fresh sodium k key here h = h
Reach-find_key fresh sodium k key (next r st) h =
    Step-find_key fresh sodium k key st (Reach-find_key fresh sodium k key r h)
