-- ===== src/Engine/Suppression.antt =====
-- That alerts of one signature pass the deduplicator a suppression window apart, as long as it keeps
-- the signature.
use aigis_zero.Engine.Dedup.{
  AlertSignature, Entry, LruCache, check, check_seen, put_back, fresh_entry, repeated,
  ShardedDeduplicator, shard_index, set_shard, check_and_record, same_technique, same_signature,
}
use aigis_zero.Engine.Models.{Uuid}
use aigis_zero.Prelude.{
  ℕ, ◌-◌, ◌≤◌, String, Bool, true, false, not, ◌&&◌, ◌||◌, List, [], ◌∷◌, Option, none, some,
  is_some, Option-cases, Bool-cases, ◌≡◌, ◌⊎◌, refl, subst, sym, ap, ◌∙◌, inl, inr, if◌then◌else◌,
  ltb, ◌==◌, ==_refl, ==_iff, eq_iff, str_eq_refl, &&-eq-true, arith,
}

-- Each pass is a window after the one before it, the first of them after `last`, unless it is
-- marked.
abbrev pub SpacedFrom : ℕ → ℕ → List (ℕ × Bool) → Type 0
SpacedFrom w last [] = Unit
SpacedFrom w last ((t, crowded) ∷ ts) = ((crowded ≡ true) ⊎ (w ≤ t - last)) × SpacedFrom w t ts

abbrev pub Spaced : ℕ → List (ℕ × Bool) → Type 0
Spaced w [] = Unit
Spaced w ((t, crowded) ∷ ts) = SpacedFrom w t ts

SpacedFrom-Spaced : (w last : ℕ) (ts : List (ℕ × Bool)) → SpacedFrom w last ts → Spaced w ts
SpacedFrom-Spaced w last [] h = tt
SpacedFrom-Spaced w last ((t, crowded) ∷ ts) h = h.1

same_technique-eq : (s t : Option String) → same_technique s t ≡ true → s ≡ t
same_technique-eq none none h = refl
same_technique-eq none (some t) h = cc
same_technique-eq (some s) none h = cc
same_technique-eq (some s) (some t) h = ap some ((eq_iff s t).0 h)

pub same_signature-eq : (a b : AlertSignature) → same_signature a b ≡ true → a ≡ b
same_signature-eq a b h =
    let (node, h') = &&-eq-true _ _ h in
    let (rule, technique) = &&-eq-true _ _ h' in
    let e1 = (==_iff a.node_id b.node_id).0 node in
    let e2 = (eq_iff a.rule_identifier b.rule_identifier).0 rule in
    let e3 = same_technique-eq a.mitre_technique b.mitre_technique technique in
    λ i. record { node_id = e1 i; rule_identifier = e2 i; mitre_technique = e3 i }

same_technique_refl : (s : Option String) → same_technique s s ≡ true
same_technique_refl none = refl
same_technique_refl (some s) = str_eq_refl s

pub same_signature_refl : (a : AlertSignature) → same_signature a a ≡ true
same_signature_refl a =
    rw (==_refl a.node_id, str_eq_refl a.rule_identifier, same_technique_refl a.mitre_technique)
      refl

module _ (lru : LruCache) (hash : Uuid → ℕ) (sig : AlertSignature) where
  abbrev shard : ShardedDeduplicator lru → lru.Cache
  shard d = d.shards (shard_index lru hash sig)

  -- What the signature's shard holds for it.
  abbrev pub held : ShardedDeduplicator lru → Option Entry
  held d = lru.get sig (shard d)

  -- Whether a check of another signature puts it on the same shard, which may drop an entry there.
  abbrev pub crowds : AlertSignature → ShardedDeduplicator lru → Bool
  crowds other d =
      shard_index lru hash sig == shard_index lru hash other
      && not (is_some (lru.get other (d.shards (shard_index lru hash other))))

  -- The times at which the signature passes, among checks of any signatures; a pass is marked if
  -- another signature has been put on the shard since the last one, or before the first.
  unfoldable pub passed :
      List (AlertSignature × ℕ) → Bool → ShardedDeduplicator lru → List (ℕ × Bool)
  passed [] crowded d = []
  passed ((other, now) ∷ ts) crowded d =
      let r = check_and_record lru hash other now d in
      let let_through = (now, crowded) ∷ passed ts false r.0 in
      let held_back = passed ts crowded r.0 in
      let elsewhere = passed ts (crowded || crowds other d) r.0 in
      if same_signature sig other then (if r.1 then let_through else held_back) else elsewhere

  -- The signature's entry tells when it last passed, or it may have been dropped.
  abbrev Remembers : ℕ → Bool → ShardedDeduplicator lru → Type 0
  Remembers last crowded d =
      ((e : Entry) × (held d ≡ some e) × (e.last_seen ≡ last))
      ⊎ ((crowded ≡ true) × (held d ≡ none))

  -- The deduplicator with the signature's shard replaced.
  abbrev pub with_shard : lru.Cache → ShardedDeduplicator lru → ShardedDeduplicator lru
  with_shard c d = record d { shards = set_shard lru (shard_index lru hash sig) c d.shards }

  held-with_shard :
      (c : lru.Cache) (d : ShardedDeduplicator lru) → held (with_shard c d) ≡ lru.get sig c
  held-with_shard c d =
      ap (λ b. lru.get sig (if b then c else shard d)) (==_refl (shard_index lru hash sig))

  -- What a check of another signature leaves of the entry.
  abbrev Keeps : AlertSignature → ShardedDeduplicator lru → lru.Cache × Bool → Type 0
  Keeps other d x =
      let d' = (put_back lru (shard_index lru hash other) d x).0 in
      (held d' ≡ held d) ⊎ ((crowds other d ≡ true) × (held d' ≡ none))

  module _ (other : AlertSignature) (d : ShardedDeduplicator lru) where
    abbrev other_shard : lru.Cache
    other_shard = d.shards (shard_index lru hash other)

    -- On the other signature's shard, if that is not the signature's, nothing happens to the entry.
    apart-Keeps :
        (x : lru.Cache × Bool)
        → (shard_index lru hash sig == shard_index lru hash other) ≡ false
        → Keeps other d x
    apart-Keeps (c, passes) e = inl (ap (λ b. lru.get sig (if b then c else shard d)) e)

    module _ (shared : (shard_index lru hash sig == shard_index lru hash other) ≡ true) where
      held-other_shard : lru.get sig other_shard ≡ held d
      held-other_shard =
          ap (λ i. lru.get sig (d.shards i))
            (sym ((==_iff (shard_index lru hash sig) (shard_index lru hash other)).0 shared))

      held-shared :
          (c : lru.Cache) (passes : Bool)
          → held (put_back lru (shard_index lru hash other) d (c, passes)).0 ≡ lru.get sig c
      held-shared c passes = ap (λ b. lru.get sig (if b then c else shard d)) shared

      module _ (differs : same_signature sig other ≡ false) (now : ℕ) where
        put-Keeps :
            lru.get other other_shard ≡ none
            → (lru.get sig (lru.put other (fresh_entry lru now) other_shard)
                ≡ lru.get sig other_shard)
              ⊎ (lru.get sig (lru.put other (fresh_entry lru now) other_shard) ≡ none)
            → Keeps other d (lru.put other (fresh_entry lru now) other_shard, true)
        put-Keeps fresh (inl same) = inl (held-shared _ true ∙ same ∙ held-other_shard)
        put-Keeps fresh (inr dropped) = inr (rw (shared, fresh) refl, held-shared _ true ∙ dropped)

        write-Keeps :
            (e : Entry) (passes : Bool) → Keeps other d (lru.write other e other_shard, passes)
        write-Keeps e passes = inl (
            held-shared _ passes
            ∙ lru.get-write-other sig other e other_shard differs
            ∙ held-other_shard)

        seen-Keeps :
            (soon : Bool) (e : Entry) → Keeps other d (check_seen lru soon other now e other_shard)
        seen-Keeps true e = write-Keeps (repeated lru e) false
        seen-Keeps false e = write-Keeps (fresh_entry lru now) true

        shared-Keeps :
            (w : ℕ) (o : Option Entry)
            → lru.get other other_shard ≡ o
            → Keeps other d (check lru w other now o other_shard)
        shared-Keeps w none h =
            put-Keeps h (lru.get-put-other sig other (fresh_entry lru now) other_shard differs)
        shared-Keeps w (some e) h = seen-Keeps (ltb (now - e.last_seen) w) e

    check-Keeps :
        (now : ℕ)
        → same_signature sig other ≡ false
        → Keeps other d
            (check lru d.suppression_window other now (lru.get other other_shard) other_shard)
    check-Keeps now differs =
        elim (Bool-cases (shard_index lru hash sig == shard_index lru hash other)) [
          | inl shared ↦ shared-Keeps shared differs now d.suppression_window _ refl
          | inr apart ↦
              apart-Keeps
                (check lru d.suppression_window other now (lru.get other other_shard) other_shard)
                apart
        ]

    Keeps-Remembers :
        (last : ℕ) (crowded : Bool) (x : lru.Cache × Bool)
        → Keeps other d x
        → Remembers last crowded d
        → Remembers last
            (crowded || crowds other d)
            (put_back lru (shard_index lru hash other) d x).0
    Keeps-Remembers last crowded x (inl same) (inl (e, h, l)) = inl (e, same ∙ h, l)
    Keeps-Remembers last crowded x (inl same) (inr (c, h)) = inr (rw c refl, same ∙ h)
    Keeps-Remembers last crowded x (inr (c, h)) k = inr (rw c (ground arith), h)

  -- The passes after a check of the signature itself with the given outcome.
  abbrev later :
      ℕ
      → List (AlertSignature × ℕ)
      → Bool
      → ShardedDeduplicator lru
      → lru.Cache × Bool
      → List (ℕ × Bool)
  later now ts crowded d x =
      let r = put_back lru (shard_index lru hash sig) d x in
      if r.1 then (now, crowded) ∷ passed ts false r.0 else passed ts crowded r.0

  passed-own :
      (other : AlertSignature) (now : ℕ) (ts : List (AlertSignature × ℕ)) (crowded : Bool)
      (d : ShardedDeduplicator lru)
      → same_signature sig other ≡ true
      → passed ((other, now) ∷ ts) crowded d
        ≡ later now ts crowded d (check lru d.suppression_window sig now (held d) (shard d))
  unfolding passed check_and_record
  passed-own other now ts crowded d same =
      let e = same_signature-eq sig other same in
      let itself : same_signature sig sig ≡ true =
        subst (λ o. same_signature sig o ≡ true) (sym e) same in
      rw (← e) (rw itself refl)

  passed-other :
      (other : AlertSignature) (now : ℕ) (ts : List (AlertSignature × ℕ)) (crowded : Bool)
      (d : ShardedDeduplicator lru)
      → same_signature sig other ≡ false
      → passed ((other, now) ∷ ts) crowded d
        ≡ passed ts (crowded || crowds other d) (check_and_record lru hash other now d).0
  unfolding passed
  passed-other other now ts crowded d differs = rw differs refl

  Remembers-other :
      (other : AlertSignature) (now last : ℕ) (crowded : Bool) (d : ShardedDeduplicator lru)
      → same_signature sig other ≡ false
      → Remembers last crowded d
      → Remembers last (crowded || crowds other d) (check_and_record lru hash other now d).0
  unfolding check_and_record
  Remembers-other other now last crowded d differs k =
      let seen = lru.get other (other_shard other d) in
      Keeps-Remembers other d last crowded
        (check lru d.suppression_window other now seen (other_shard other d))
        (check-Keeps other d now differs) k

  -- What is to show of the checks after the first.
  abbrev Follows : List (AlertSignature × ℕ) → Type 0
  Follows ts =
      (last : ℕ) (crowded : Bool) (d : ShardedDeduplicator lru)
      → Remembers last crowded d
      → SpacedFrom d.suppression_window last (passed ts crowded d)

  module _ (now : ℕ) (ts : List (AlertSignature × ℕ)) (ih : Follows ts) (last : ℕ) (crowded : Bool)
      (d : ShardedDeduplicator lru) where
    seen-SpacedFrom :
        (e : Entry)
        → held d ≡ some e
        → e.last_seen ≡ last
        → (soon : Bool) → ltb (now - e.last_seen) d.suppression_window ≡ soon
        → SpacedFrom d.suppression_window last
            (later now ts crowded d (check_seen lru soon sig now e (shard d)))
    seen-SpacedFrom e h l true soon =
        let c = lru.write sig (repeated lru e) (shard d) in
        ih last crowded (with_shard c d) (
          inl (
            repeated lru e,
            held-with_shard c d ∙ lru.get-write sig e (repeated lru e) (shard d) h,
            l,
          ))
    seen-SpacedFrom e h l false late =
        let c = lru.write sig (fresh_entry lru now) (shard d) in
        (
          inr (ground (arith, l)),
          ih now false (with_shard c d) (
              inl (
                fresh_entry lru now,
                held-with_shard c d ∙ lru.get-write sig e (fresh_entry lru now) (shard d) h,
                refl,
              )),
        )

    -- A check of a signature that its shard does not hold.
    put-SpacedFrom :
        SpacedFrom d.suppression_window now
          (passed ts false (with_shard (lru.put sig (fresh_entry lru now) (shard d)) d))
    put-SpacedFrom =
        let c = lru.put sig (fresh_entry lru now) (shard d) in
        ih now false (with_shard c d) (
          inl (
            fresh_entry lru now,
            held-with_shard c d ∙ lru.get-put sig (fresh_entry lru now) (shard d),
            refl,
          ))

    own-SpacedFrom :
        Remembers last crowded d
        → SpacedFrom d.suppression_window last
            (later now ts crowded d (check lru d.suppression_window sig now (held d) (shard d)))
    own-SpacedFrom (inl (e, h, l)) = rw h (seen-SpacedFrom e h l _ refl)
    own-SpacedFrom (inr (c, h)) = rw h (inl c, put-SpacedFrom)

  passed-SpacedFrom : (ts : List (AlertSignature × ℕ)) → Follows ts
  unfolding passed check_and_record
  passed-SpacedFrom [] last crowded d k = tt
  passed-SpacedFrom ((other, now) ∷ ts) last crowded d k =
      let w = d.suppression_window in
      elim (Bool-cases (same_signature sig other)) [
        | inl same ↦
            subst (SpacedFrom w last) (sym (passed-own other now ts crowded d same))
              (own-SpacedFrom now ts (passed-SpacedFrom ts) last crowded d k)
        | inr differs ↦
            subst (SpacedFrom w last) (sym (passed-other other now ts crowded d differs)) (
              passed-SpacedFrom ts last (crowded || crowds other d) _
                (Remembers-other other now last crowded d differs k))
      ]

  -- Whatever signatures are checked, and at whatever times: of two passes of one signature, the
  -- second is a suppression window after the first, unless another signature has been put on the
  -- same shard since, which may have dropped this one there.
  pub passed-Spaced :
      (ts : List (AlertSignature × ℕ)) (crowded : Bool) (d : ShardedDeduplicator lru)
      → Spaced d.suppression_window (passed ts crowded d)
  unfolding passed check_and_record
  passed-Spaced [] crowded d = tt
  passed-Spaced ((other, now) ∷ ts) crowded d =
      let w = d.suppression_window in
      elim (Bool-cases (same_signature sig other)) [
        | inr differs ↦
            subst (Spaced w) (sym (passed-other other now ts crowded d differs)) (
              passed-Spaced ts (crowded || crowds other d)
                (check_and_record lru hash other now d).0)
        | inl same ↦
            subst (Spaced w) (sym (passed-own other now ts crowded d same))
              (elim (Option-cases (held d)) [
                | inl h ↦ rw h (put-SpacedFrom now ts (passed-SpacedFrom ts) now crowded d)
                | inr (e, h) ↦ SpacedFrom-Spaced w e.last_seen _ (
                    own-SpacedFrom now ts (passed-SpacedFrom ts) e.last_seen crowded d
                      (inl (e, h, refl)))
              ])
      ]
