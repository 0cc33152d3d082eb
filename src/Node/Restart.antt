-- ===== src/Node/Restart.antt =====
-- The lives of a node: it starts without files, takes steps, stops, and starts again from what its log holds,
-- as src/beacon_engine/main.cpp does.
use beacon_node.Base.{
  ℕ, ◌≤◌, ◌+◌, List, [], ◌∷◌, ◌≡◌, refl, ◌∙◌, ap, sym, subst, inl, inr, arith, All, All-map,
  All-append, Option, none, some, true, length, map, find_if, modify_first, ltb, append-nil,
  Bool-cases, Bool, filter, ◌⊎◌, if◌then◌else◌,
}
use beacon_node.Types.{AgentRecord, TimePoint}
use beacon_node.Crypto.{Sodium, decode_hex}
use beacon_node.Crypto.Hex.{decode_hex-encode_hex-decode_hex}
use beacon_node.SecureBuffer.{Allocator}
use beacon_node.Identity.{new_identity_service}
use beacon_node.Registry.{
  AgentRegistry, has_id, load_record, load_records, load_from_persistence, one_year,
  set_upsert_callback,
}
use beacon_node.Engine.Ready.{restore-IsValid}
use beacon_node.Engine.Restart.{entry_of, record_of, restore, start_registry}
use beacon_node.Persistence.{Codec}
use beacon_node.Persistence.Wal.{IsSaved}
use beacon_node.Node.Replay.{log_of, positive, started, start_registry-log_of}
use beacon_node.Node.{Node, first_start, Renewed, Reach}
use beacon_node.Node.Covered.{IsOrigin, Covered}
use beacon_node.Node.Invariant.{Inv, All-modify_first, Reach-Inv_from}

-- The stored record `x` comes from the record `y` that was handed to the callback: it names the same agent,
-- node and endpoint, has a key and a signature of the same bytes, and is not older.
pub record Descends (y x : AgentRecord) : Type 0 where
  pub agent_id : x.agent_id ≡ y.agent_id
  pub node_id : x.node_id ≡ y.node_id
  pub endpoint : x.endpoint ≡ y.endpoint
  pub public_key : decode_hex x.public_key_hex ≡ decode_hex y.public_key_hex
  pub signature : decode_hex x.signature_hex ≡ decode_hex y.signature_hex
  pub newer : y.revision ≤ x.revision

Descends-Renewed : (y x z : AgentRecord) → Descends y x → Renewed x z → Descends y z
Descends-Renewed y x z d r = record {
  agent_id = ap (λ (w : AgentRecord). w.agent_id) r.same ∙ d.agent_id;
  node_id = ap (λ (w : AgentRecord). w.node_id) r.same ∙ d.node_id;
  endpoint = ap (λ (w : AgentRecord). w.endpoint) r.same ∙ d.endpoint;
  public_key = ap (λ (w : AgentRecord). decode_hex w.public_key_hex) r.same ∙ d.public_key;
  signature = ap (λ (w : AgentRecord). decode_hex w.signature_hex) r.same ∙ d.signature;
  newer = omega (arith, d.newer, r.newer);
}

pub Descends-IsOrigin : IsOrigin Descends
Descends-IsOrigin = record {
  same_id = λ y x d. d.agent_id;
  own = λ r. record {
    agent_id = refl;
    node_id = refl;
    endpoint = refl;
    public_key = refl;
    signature = refl;
    newer = omega arith;
  };
  kept = Descends-Renewed;
}

-- A record that a start restores descends from the records that the logged one descends from.
Descends-record_of :
    (now : TimePoint) (y x : AgentRecord) → Descends y x → Descends y (record_of now (entry_of x))
unfolding record_of entry_of
Descends-record_of now y x d = record {
  agent_id = d.agent_id;
  node_id = d.node_id;
  endpoint = d.endpoint;
  public_key = decode_hex-encode_hex-decode_hex x.public_key_hex ∙ d.public_key;
  signature = decode_hex-encode_hex-decode_hex x.signature_hex ∙ d.signature;
  newer = d.newer;
}

-- A property that the expiry does not matter for holds of the records that a load leaves.
module _ (P : AgentRecord → Type 0)
    (any_expiry : (x : AgentRecord) (t : TimePoint) → P x → P (record x { expires_at = t })) where
  load_record-All :
      (t : TimePoint) (xs : List AgentRecord) (r : AgentRecord)
      → All P xs
      → P r
      → All P (load_record t xs r)
  unfolding load_record
  load_record-All t xs r all h = by_case (find_if (has_id r.agent_id) xs) refl
    where
      late : AgentRecord → AgentRecord
      late x = record x { expires_at = t }

      by_case :
          (found : Option AgentRecord)
          → find_if (has_id r.agent_id) xs ≡ found
          → All P (load_record t xs r)
      by_case none e =
          rw (e, load_record) (All-append P xs (late r ∷ []) all (any_expiry r t h, tt))
      by_case (some x) e = elim (Bool-cases (ltb x.revision r.revision)) [
        | inr old ↦ rw (e, old, load_record) all
        | inl new ↦
            rw (e, new, load_record)
              (All-modify_first P (has_id r.agent_id) (λ _. r)
                (modify_first (has_id r.agent_id) late xs) (λ y q hy. h)
                (All-modify_first P (has_id r.agent_id) late xs (λ y q hy. any_expiry y t hy) all))
      ]

  load_records-All :
      (t : TimePoint) (rs xs : List AgentRecord)
      → All P xs
      → All P rs
      → All P (load_records t xs rs)
  unfolding load_records
  load_records-All t [] xs all h = all
  load_records-All t (r ∷ rs) xs all (hr, h) =
      load_records-All t rs (load_record t xs r) (load_record-All t xs r all hr) h

-- What of the records handed to the log is in the file: a write adds its whole block or fails and adds nothing.
pub data Written : List AgentRecord → List AgentRecord → Type 0 where
  no_more : Written [] []
  wrote : {ws rs : List AgentRecord} (r : AgentRecord) → Written ws rs → Written (r ∷ ws) (r ∷ rs)
  failed : {ws rs : List AgentRecord} (r : AgentRecord) → Written ws rs → Written ws (r ∷ rs)

pub Written-refl : (rs : List AgentRecord) → Written rs rs
Written-refl [] = no_more
Written-refl (r ∷ rs) = wrote r (Written-refl rs)

-- The node after a start that made the registry `g` of a log with these records. The trust store is not on
-- disk.
abbrev pub restarted : AgentRegistry → List AgentRecord → Node
restarted g written = record {
  registry = g;
  identity = new_identity_service;
  pending = [];
  logged = written;
}

-- The states of a node from its first start on, through all its lives. A life may end in any state: the
-- callbacks that are pending then never run. The next one starts with what `start_registry` makes of the file.
pub data Life (fresh : Allocator) (sodium : Option Sodium) (codec : Codec) : Node → Type 0 where
  born : Life fresh sodium codec first_start
  lives :
      {m n : Node} → Life fresh sodium codec m → Reach fresh sodium m n → Life fresh sodium codec n
  starts_again :
      {m : Node} {g : AgentRegistry} (now : TimePoint) (written : List AgentRecord)
      → Life fresh sodium codec m
      → Written written m.logged
      → All (IsSaved codec) (map entry_of written)
      → start_registry codec now (log_of codec written) ≡ some g
      → Life fresh sodium codec (restarted g written)

any_expiry-Covered :
    (logged : List AgentRecord) (x : AgentRecord) (t : TimePoint)
    → Covered Descends logged x
    → Covered Descends logged (record x { expires_at = t })
any_expiry-Covered (y ∷ ys) x t (inl d) = inl (record {
  agent_id = d.agent_id;
  node_id = d.node_id;
  endpoint = d.endpoint;
  public_key = d.public_key;
  signature = d.signature;
  newer = d.newer;
})
any_expiry-Covered (y ∷ ys) x t (inr h) = inr (any_expiry-Covered ys x t h)
any_expiry-Covered [] x t h = absurd h

restored-Covered :
    (now : TimePoint) (logged : List AgentRecord)
    → All (Covered Descends logged) (map (record_of now) (map entry_of logged))
restored-Covered now [] = tt
restored-Covered now (y ∷ ys) = (
  inl (Descends-record_of now y y (Descends-IsOrigin.own y)),
  All-map (Covered Descends ys) (Covered Descends (y ∷ ys)) (λ x h. inr h)
      (map (record_of now) (map entry_of ys)) (restored-Covered now ys),
)

restore-Covered :
    (now : TimePoint) (logged : List AgentRecord)
    → All (Covered Descends logged) (restore now (map entry_of logged)).records
unfolding restore load_from_persistence
restore-Covered now [] = tt
restore-Covered now (y ∷ ys) =
    load_records-All (Covered Descends (y ∷ ys)) (any_expiry-Covered (y ∷ ys)) (now + one_year)
      (map (record_of now) (map entry_of (y ∷ ys))) [] tt (restored-Covered now (y ∷ ys))

Covered-filter :
    (p : AgentRecord → Bool) (ys : List AgentRecord) (x : AgentRecord)
    → Covered Descends (filter p ys) x
    → Covered Descends ys x
unfolding filter
Covered-filter p [] x h = h
Covered-filter p (y ∷ ys) x h = elim (Bool-cases (p y)) [
  | inr e ↦ inr (Covered-filter p ys x (ground (arith, e, h)))
  | inl e ↦ elim (first_or_later e h) [
    | inl d ↦ inl d
    | inr later ↦ inr (Covered-filter p ys x later)
  ]
]
  where
    first_or_later :
        p y ≡ true
        → Covered Descends (filter p (y ∷ ys)) x
        → Descends y x ⊎ Covered Descends (filter p ys) x
    first_or_later e q =
        subst (λ b. Covered Descends (if b then y ∷ filter p ys else filter p ys) x) e q

-- A start from a log gives a node with the invariant.
pub started-Inv :
    (now : TimePoint) (written : List AgentRecord)
    → Inv Descends (restarted (started now written) written)
unfolding set_upsert_callback
started-Inv now written =
    let kept = positive written in
    record {
      valid = record { distinct = (restore-IsValid now (map entry_of kept)).distinct };
      callback = refl;
      covered =
          subst (λ l. All (Covered Descends l) (restore now (map entry_of kept)).records)
            (sym (append-nil written))
            (All-map (Covered Descends kept) (Covered Descends written)
              (Covered-filter (λ (r : AgentRecord). ltb 0 r.revision) written)
              (restore now (map entry_of kept)).records (restore-Covered now kept));
      keys = tt;
    }

some_same : (g h : AgentRegistry) → some g ≡ some h → g ≡ h
some_same g h e = ground (arith, e)

module _ (fresh : Allocator) (sodium : Option Sodium) (sized : (k : ℕ) → length (fresh k) ≡ k)
    (codec : Codec) where
  -- A node starts any number of times, each time from the entries that its log holds, where a write to the
  -- log adds a whole block or fails and adds nothing, and each entry that is written is read back and within
  -- the size limit. In each life the calls of its threads interleave in any order, and a life ends in any
  -- state. In every state that it reaches, the agent ids of the registry are distinct, the registry has its
  -- callback, the buffers of the trust store are valid, and every stored record comes from one that was
  -- handed to the callback in this life or written to the log in an earlier one: one of the same agent, node
  -- and endpoint, with a key and a signature of the same bytes, which is not newer.
  pub Life-Inv : {n : Node} → Life fresh sodium codec n → Inv Descends n
  Life-Inv born = record {
    valid = record { distinct = tt };
    callback = refl;
    covered = tt;
    keys = tt;
  }
  Life-Inv (lives l r) = Reach-Inv_from fresh sodium sized Descends Descends-IsOrigin r (Life-Inv l)
  Life-Inv (starts_again {m} {g} now written l some_written saved e) =
      subst (λ h. Inv Descends (restarted h written))
        (some_same (started now written) g
          (sym (start_registry-log_of codec now written saved) ∙ e))
        (started-Inv now written)
