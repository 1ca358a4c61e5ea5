-- ===== src/Old/Analyze/Rounds.antt =====
-- The rounds of the loop of analyze_data: what a state keeps from one to the next.
use trapfetch.Base.{
  ℕ, ◌+◌, ◌<◌, ◌≡◌, refl, ap, ◌≤◌, ◌≢◌, ◌⊎◌, inl, inr, true, false, Option, none, some, List, [],
  ◌∷◌, arith, Bool-cases, if◌then◌else◌, length, ℤ, pos, eqb_ℤ, +ℤ_parts, pos_part, neg_part,
}
use trapfetch.Old.Groups.{Entry}
use trapfetch.Old.Groups.Cut.{Asks, AnyAsks, GroupAsks, same_lba}
use trapfetch.Old.Analyze.{
  Result, ok, null_pointer, overruns, endless, out_of_fuel, ◌>>=◌, Log, fetch, refill, Turn, both,
  from_mmap, from_read, State, fetch_nodes,
}

-- The code comes to its end, or reads behind the queue; and this holds of a result.
abbrev pub Holds {ℓ} : {A : Type ℓ} → (A → Type 0) → Result A → Type 0
Holds P (ok a) = P a
Holds P null_pointer = ⊥
Holds P overruns = Unit
Holds P endless = ⊥
Holds P out_of_fuel = ⊥

pub Holds-bind {ℓ κ} :
    {A : Type ℓ} {B : Type κ} (P : A → Type 0) (Q : B → Type 0) (m : Result A) (f : A → Result B)
    → Holds P m
    → ((a : A) → P a → Holds Q (f a))
    → Holds Q (m >>= f)
Holds-bind P Q (ok a) f h k = k a h
Holds-bind P Q null_pointer f h k = elim h [ ]
Holds-bind P Q overruns f h k = tt
Holds-bind P Q endless f h k = elim h [ ]
Holds-bind P Q out_of_fuel f h k = elim h [ ]

pub Holds-map {ℓ} :
    {A : Type ℓ} (P Q : A → Type 0) (m : Result A) → ((a : A) → P a → Q a) → Holds P m → Holds Q m
Holds-map P Q (ok a) k h = k a h
Holds-map P Q null_pointer k h = h
Holds-map P Q overruns k h = tt
Holds-map P Q endless k h = h
Holds-map P Q out_of_fuel k h = h

abbrev pub NodeAsks : Option Entry → ℤ → ℤ → Type 0
NodeAsks none l x = ⊥
NodeAsks (some e) l x = Asks e l x

-- What a log still asks for: with its node, unless that has been taken.
abbrev pub Fresh : Log → ℤ → ℤ → Type 0
Fresh log l x = ((log.eof ≡ false) × NodeAsks log.node l x) ⊎ AnyAsks log.rest l x

-- The last line of a log makes a node, if there is a line.
abbrev pub LastLong : List Entry → Type 0
LastLong [] = Unit
LastLong (e ∷ []) = eqb_ℤ e.length (pos 0) ≡ false
LastLong (e ∷ f ∷ es) = LastLong (f ∷ es)

LastLong-tail : (e : Entry) (es : List Entry) → LastLong (e ∷ es) → LastLong es
LastLong-tail e [] h = tt
LastLong-tail e (f ∷ es) h = h

LastLong-more :
    (e : Entry) (es : List Entry) → LastLong (e ∷ es) → eqb_ℤ e.length (pos 0) ≡ true → es ≢ []
LastLong-more e [] h z is = cc
LastLong-more e (f ∷ es) h z is = cc

-- The end has been met only behind the last line; and there is a node.
pub record Filled (log : Log) : Type 0 where
  pub ended : log.eof ≡ true → log.rest ≡ []
  pub node : log.node ≢ none
  pub long : LastLong log.rest

no_bytes : (e : Entry) (l x : ℤ) → eqb_ℤ e.length (pos 0) ≡ true → Asks e l x → ⊥
no_bytes e l x z (a, b, c) =
    let zero_length = same_lba e.length (pos 0) z in
    omega (arith, +ℤ_parts e.offset e.length, ap pos_part zero_length, ap neg_part zero_length)

-- The lines that are left, and one for the end.
abbrev pub size : Log → ℕ
size log = length log.rest + (if log.eof then 0 else 1)

-- A log at its start.
pub record Unread (log : Log) : Type 0 where
  pub eof : log.eof ≡ false
  pub some_lines : log.rest ≢ []
  pub long : LastLong log.rest

-- The log whose turn it is can be asked for a line.
abbrev pub IsSound : Turn → State → Type 0
IsSound both s = Unread s.mm × Unread s.rd
IsSound from_mmap s = Filled s.mm × Filled s.rd × (s.mm.eof ≡ false)
IsSound from_read s = Filled s.mm × Filled s.rd × (s.rd.eof ≡ false)

module _ (l x : ℤ) where
  record Read (es : List Entry) (log : Log) : Type 0 where
    filled : Filled log
    small : size log ≤ length es
    asks : AnyAsks es l x → Fresh log l x

  fetch-Read :
      (old : Option Entry) (es : List Entry)
      → (old ≢ none) ⊎ (es ≢ [])
      → LastLong es
      → Holds (Read es) (fetch old es)
  unfolding fetch
  fetch-Read none [] (inl h) long = h refl
  fetch-Read none [] (inr h) long = h refl
  fetch-Read (some n) [] there long = record {
    filled = record { ended = λ e. refl; node = λ e. cc; long = tt };
    small = omega arith;
    asks = λ h. elim h [ ];
  }
  fetch-Read old (e ∷ es) there long = elim (Bool-cases (eqb_ℤ e.length (pos 0))) [
    | inr z ↦ rw z (record {
      filled = record { ended = λ e. cc; node = λ e. cc; long = LastLong-tail e es long };
      small = omega arith;
      asks = λ h. elim h [ inl a ↦ inl (refl, a) | inr b ↦ inr b ];
    })
    | inl z ↦ rw z (
        longer (fetch none es)
          (fetch-Read none es (inr (LastLong-more e es long z)) (LastLong-tail e es long)) z)
  ]
    where
      longer :
          (r : Result Log)
          → Holds (Read es) r
          → eqb_ℤ e.length (pos 0) ≡ true
          → Holds (Read (e ∷ es)) r
      longer (ok log) h z = record {
        filled = h.filled;
        small = omega (arith, h.small);
        asks = λ a. elim a [ inl a ↦ absurd (no_bytes e l x z a) | inr b ↦ h.asks b ];
      }
      longer null_pointer h z = elim h [ ]
      longer overruns h z = tt
      longer endless h z = elim h [ ]
      longer out_of_fuel h z = elim h [ ]

  -- What the groups ask for.
  abbrev pub InGroups : State → Type 0
  InGroups s = GroupAsks l x s.groups ⊎ AnyAsks s.b_group.nodes l x

  -- What the groups and the queue ask for.
  abbrev pub Held : State → Type 0
  Held s = GroupAsks l x s.groups ⊎ (AnyAsks s.b_group.nodes l x ⊎ AnyAsks s.q l x)

  -- The state's logs: what they still ask for, and what a round takes from them. The log whose turn
  -- it is has had its node taken.
  abbrev pub Waits : Turn → State → Type 0
  Waits both s = AnyAsks s.mm.rest l x ⊎ AnyAsks s.rd.rest l x
  Waits from_mmap s = AnyAsks s.mm.rest l x ⊎ Fresh s.rd l x
  Waits from_read s = Fresh s.mm l x ⊎ AnyAsks s.rd.rest l x

  -- Behind the reading of the lines.
  pub record Fetched (t : Turn) (s s' : State) : Type 0 where
    pub mm : Filled s'.mm
    pub rd : Filled s'.rd
    pub small : size s'.mm + size s'.rd < size s.mm + size s.rd
    pub asks : Waits t s → Fresh s'.mm l x ⊎ Fresh s'.rd l x
    pub held : Held s → Held s'

  refill-Read :
      (log : Log)
      → log.eof ≡ false
      → (log.node ≢ none) ⊎ (log.rest ≢ [])
      → LastLong log.rest
      → Holds (Read log.rest) (refill log)
  unfolding refill
  refill-Read log e there long = rw e (fetch-Read log.node log.rest there long)

  size_open : (log : Log) → log.eof ≡ false → size log ≡ length log.rest + 1
  size_open log e = rw e refl

  -- The three turns.
  turns : (s : State) (t : Turn) → Result State
  turns s from_mmap = refill s.mm >>= λ mm. ok (record s { mm = mm })
  turns s from_read = refill s.rd >>= λ rd. ok (record s { rd = rd })
  turns s both = refill s.mm >>= λ mm. refill s.rd >>= λ rd. ok (record s { mm = mm; rd = rd })

  turns-Fetched : (s : State) (t : Turn) → IsSound t s → Holds (Fetched t s) (turns s t)
  unfolding turns
  turns-Fetched s both (p, q) =
      Holds-bind (Read s.mm.rest) (Fetched both s) (refill s.mm) _
        (refill-Read s.mm p.eof (inr p.some_lines) p.long)
        λ mm h.
          Holds-bind (Read s.rd.rest) (Fetched both s) (refill s.rd) _
            (refill-Read s.rd q.eof (inr q.some_lines) q.long)
            λ rd k. record {
              mm = h.filled;
              rd = k.filled;
              small = omega (arith, h.small, k.small, size_open s.mm p.eof, size_open s.rd q.eof);
              asks = λ w. elim w [ inl a ↦ inl (h.asks a) | inr b ↦ inr (k.asks b) ];
              held = λ h. h;
            }
  turns-Fetched s from_mmap (f, g, p) =
      Holds-bind (Read s.mm.rest) (Fetched from_mmap s) (refill s.mm) _
        (refill-Read s.mm p (inl f.node) f.long)
        λ mm h. record {
          mm = h.filled;
          rd = g;
          small = omega (arith, h.small, size_open s.mm p);
          asks = λ w. elim w [ inl a ↦ inl (h.asks a) | inr b ↦ inr b ];
          held = λ h. h;
        }
  turns-Fetched s from_read (f, g, p) =
      Holds-bind (Read s.rd.rest) (Fetched from_read s) (refill s.rd) _
        (refill-Read s.rd p (inl g.node) g.long)
        λ rd h. record {
          mm = f;
          rd = h.filled;
          small = omega (arith, h.small, size_open s.rd p);
          asks = λ w. elim w [ inl a ↦ inl a | inr b ↦ inr (h.asks b) ];
          held = λ h. h;
        }

  pub fetch_nodes-Fetched :
      (s : State) → IsSound s.turn s → Holds (Fetched s.turn s) (fetch_nodes s)
  unfolding fetch_nodes turns
  fetch_nodes-Fetched s sound = turns-Fetched s s.turn sound
