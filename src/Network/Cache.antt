-- ===== src/Network/Cache.antt =====
-- network.go: the cache of identities along a series of calls of isDuplicateMessage.
use shardmatrix.Prelude.{
  ℕ, suc, ◌+◌, ◌/◌, ◌≤◌, ◌<◌, ◌≡◌, refl, sym, ◌∙◌, ap, subst, true, false, List, [], ◌∷◌, length,
  leb, if◌then◌else◌, some, arith, inl, inr, Bool-cases, Option-cases, All, ==-refl,
}
use shardmatrix.Network.{Network}
use shardmatrix.Prelude.Assoc.{Assoc, lookup, insert, lookup-insert}
use shardmatrix.Network.Receiving.{
  is_duplicate_message, CacheRange, clean_expired_cache, delete_until, remember,
}

length-insert : (id t : ℕ) (m : Assoc ℕ) → length (insert id t m) ≤ suc (length m)
unfolding insert
length-insert id t [] = omega arith
length-insert id t ((j, u) ∷ m) = let rest = length-insert id t m in ground arith

length-clean_expired_cache :
    (now expiry : ℕ) (m : Assoc ℕ) → length (clean_expired_cache now expiry m) ≤ length m
unfolding clean_expired_cache
length-clean_expired_cache now expiry [] = omega arith
length-clean_expired_cache now expiry ((id, t) ∷ m) =
    let rest = length-clean_expired_cache now expiry m in ground arith

length-delete_until : (half : ℕ) (m : Assoc ℕ) → length (delete_until half m) ≤ half
unfolding delete_until
length-delete_until half [] = omega arith
length-delete_until half (e ∷ m) = let rest = length-delete_until half m in ground arith

-- An entry that has not expired stays.
lookup-clean_expired_cache :
    (now expiry id t : ℕ) (m : Assoc ℕ)
    → now ≤ t + expiry
    → lookup id m ≡ some t
    → lookup id (clean_expired_cache now expiry m) ≡ some t
unfolding lookup clean_expired_cache
lookup-clean_expired_cache now expiry id t [] fresh found = found
lookup-clean_expired_cache now expiry id t ((j, u) ∷ m) fresh found =
    let rest = lookup-clean_expired_cache now expiry id t m fresh in ground arith

true_is_false : {A : Type 0} → true ≡ false → A
true_is_false e = ground arith

module _ (r : CacheRange) where
  -- The cache that a new entry goes to.
  abbrev room_for : ℕ → Assoc ℕ → Assoc ℕ
  room_for max_size m =
      if leb max_size (length m) then delete_until (max_size / 2) (r.order m) else m

  -- With room, one entry more at most.
  length-remember :
      (now max_size id : ℕ) (m : Assoc ℕ)
      → length m < max_size
      → length (remember r now max_size id m).1 ≤ suc (length m)
  unfolding remember
  length-remember now max_size id m room =
      let grown = length-insert id now m in
      elim (Option-cases (lookup id m)) [ inl new ↦ ground arith | inr (t, old) ↦ ground arith ]

  -- With or without, no more than the limit.
  length-remember_full :
      (now max_size id : ℕ) (m : Assoc ℕ)
      → 1 ≤ max_size
      → length m ≤ max_size
      → length (remember r now max_size id m).1 ≤ max_size
  unfolding remember
  length-remember_full now max_size id m some_size bound =
      let half = delete_until (max_size / 2) (r.order m) in
      let grown = length-insert id now m in
      let grown_half = length-insert id now half in
      let cut = length-delete_until (max_size / 2) (r.order m) in
      elim (Option-cases (lookup id m)) [
        | inl new ↦ elim (Bool-cases (leb max_size (length m))) [
          | inl full ↦ rw (remember, new, full) (omega arith)
          | inr room ↦ ground arith
        ]
        | inr (t, old) ↦ rw (remember, old) bound
      ]

  -- With room, what is known stays known.
  lookup-remember :
      (now max_size id known t : ℕ) (m : Assoc ℕ)
      → length m < max_size
      → lookup known m ≡ some t
      → lookup known (remember r now max_size id m).1 ≡ some t
  unfolding remember
  lookup-remember now max_size id known t m room found =
      let inserted = lookup-insert id known now m in
      elim (Option-cases (lookup id m)) [
        | inl new ↦ ground arith
        | inr (u, old) ↦ rw (remember, old) found
      ]

-- A call of isDuplicateMessage: the times of its looks at the clock, and the identity.
pub record Arrival : Type 0 where
  pub cleaned_at : ℕ
  pub stored_at : ℕ
  pub id : ℕ

module _ {F H : Type 0} (r : CacheRange) where
  -- The network after a series of calls.
  unfoldable pub see_all : List Arrival → Network F H → Network F H
  unfolding is_duplicate_message
  see_all [] n = n
  see_all (a ∷ arrivals) n =
      see_all arrivals (is_duplicate_message r a.cleaned_at a.stored_at a.id n).1

  -- What a call leaves.
  record Seen (now later id : ℕ) (n n' : Network F H) : Type 0 where
    same_expiry : n'.cache_expiry ≡ n.cache_expiry
    same_size : n'.max_cache_size ≡ n.max_cache_size
    cache :
        n'.message_cache
        ≡ (remember r later n.max_cache_size id
            (clean_expired_cache now n.cache_expiry n.message_cache)).1

  see-Seen :
      (now later id : ℕ) (n : Network F H)
      → Seen now later id n (is_duplicate_message r now later id n).1
  unfolding is_duplicate_message
  see-Seen now later id n =
      let clean = clean_expired_cache now n.cache_expiry n.message_cache in
      elim (Bool-cases (remember r later n.max_cache_size id clean).0) [
        | inl seen ↦ record {
          same_expiry = rw (is_duplicate_message, seen) refl;
          same_size = rw (is_duplicate_message, seen) refl;
          cache = rw (is_duplicate_message, seen) refl;
        }
        | inr new ↦ record {
          same_expiry = rw (is_duplicate_message, new) refl;
          same_size = rw (is_duplicate_message, new) refl;
          cache = rw (is_duplicate_message, new) refl;
        }
      ]

  -- An identity in the cache stays there through the calls that its entry outlives, while there is room.
  lookup-see_all :
      (known t : ℕ) (arrivals : List Arrival) (n : Network F H)
      → lookup known n.message_cache ≡ some t
      → length n.message_cache + length arrivals ≤ n.max_cache_size
      → All (λ a. a.cleaned_at ≤ t + n.cache_expiry) arrivals
      → let n' = see_all arrivals n in
        (lookup known n'.message_cache ≡ some t) × (n'.cache_expiry ≡ n.cache_expiry)
  unfolding see_all
  lookup-see_all known t [] n found room fresh = (found, refl)
  lookup-see_all known t (a ∷ arrivals) n found room (fresh, all_fresh) =
      let n' = (is_duplicate_message r a.cleaned_at a.stored_at a.id n).1 in
      let seen = see-Seen a.cleaned_at a.stored_at a.id n in
      let clean = clean_expired_cache a.cleaned_at n.cache_expiry n.message_cache in
      let shorter = length-clean_expired_cache a.cleaned_at n.cache_expiry n.message_cache in
      let kept =
        lookup-clean_expired_cache a.cleaned_at n.cache_expiry known t n.message_cache fresh
          found in
      let has_room : length clean < n.max_cache_size = omega arith in
      let grown = length-remember r a.stored_at n.max_cache_size a.id clean has_room in
      let found' : lookup known n'.message_cache ≡ some t =
        ap (lookup known) seen.cache
        ∙ lookup-remember r a.stored_at n.max_cache_size a.id known t clean has_room kept in
      let same_length = ap length seen.cache in
      let size = seen.same_size in
      let room' : length n'.message_cache + length arrivals ≤ n'.max_cache_size = omega arith in
      let expiry = seen.same_expiry in
      let (found'', expiry') =
        lookup-see_all known t arrivals n' found' room'
          (subst (λ e. All (λ b. b.cleaned_at ≤ t + e) arrivals) (sym expiry) all_fresh) in
      (found'', expiry' ∙ expiry)

  -- A call that finds nothing makes an entry.
  lookup-first :
      (now later id : ℕ) (n : Network F H)
      → (is_duplicate_message r now later id n).0 ≡ false
      → lookup id (is_duplicate_message r now later id n).1.message_cache ≡ some later
  unfolding is_duplicate_message remember
  lookup-first now later id n new =
      let clean = clean_expired_cache now n.cache_expiry n.message_cache in
      elim (Option-cases (lookup id clean)) [
        | inl absent ↦
            rw (is_duplicate_message, remember, absent)
              (rw (lookup-insert id id later (room_for r n.max_cache_size clean), ==-refl id) refl)
        | inr (t, there) ↦
            absurd (true_is_false (rw (is_duplicate_message, remember, there) at new))
      ]

  -- A call that finds its entry fresh says so.
  found_again :
      (now later id t : ℕ) (n : Network F H)
      → lookup id n.message_cache ≡ some t
      → now ≤ t + n.cache_expiry
      → (is_duplicate_message r now later id n).0 ≡ true
  unfolding is_duplicate_message remember
  found_again now later id t n found fresh =
      let kept = lookup-clean_expired_cache now n.cache_expiry id t n.message_cache fresh found in
      rw (is_duplicate_message, remember, kept) refl

  -- A call of isDuplicateMessage that answers no, then any calls, then one for the same identity. If the last
  -- call and those between come within the cache's expiry after the first one made its entry, and the cache
  -- has room for the first call and those between, then the last one answers yes.
  pub is_duplicate_message_again :
      (now later now' later' id : ℕ) (arrivals : List Arrival) (n : Network F H)
      → (is_duplicate_message r now later id n).0 ≡ false
      → length n.message_cache + length arrivals < n.max_cache_size
      → All (λ a. a.cleaned_at ≤ later + n.cache_expiry) arrivals
      → now' ≤ later + n.cache_expiry
      → (is_duplicate_message r now' later' id
          (see_all arrivals (is_duplicate_message r now later id n).1)).0
        ≡ true
  is_duplicate_message_again now later now' later' id arrivals n new room fresh last =
      let n1 = (is_duplicate_message r now later id n).1 in
      let seen = see-Seen now later id n in
      let clean = clean_expired_cache now n.cache_expiry n.message_cache in
      let shorter = length-clean_expired_cache now n.cache_expiry n.message_cache in
      let grown = length-remember r later n.max_cache_size id clean (omega arith) in
      let same_length = ap length seen.cache in
      let size = seen.same_size in
      let expiry = seen.same_expiry in
      let (found, expiry') =
        lookup-see_all id later arrivals n1 (lookup-first now later id n new) (omega arith)
          (subst (λ e. All (λ b. b.cleaned_at ≤ later + e) arrivals) (sym expiry) fresh) in
      found_again now' later' id later (see_all arrivals n1) found (omega arith)

  -- However many calls of isDuplicateMessage come, at whatever times, a cache that has not more entries
  -- than its limit, which is not 0, does not get more, in whatever order `range` meets them.
  see_all-bounded :
      (arrivals : List Arrival) (n : Network F H)
      → 1 ≤ n.max_cache_size
      → length n.message_cache ≤ n.max_cache_size
      → length (see_all arrivals n).message_cache ≤ n.max_cache_size
  unfolding see_all
  see_all-bounded [] n some_size bound = bound
  see_all-bounded (a ∷ arrivals) n some_size bound =
      let n' = (is_duplicate_message r a.cleaned_at a.stored_at a.id n).1 in
      let seen = see-Seen a.cleaned_at a.stored_at a.id n in
      let clean = clean_expired_cache a.cleaned_at n.cache_expiry n.message_cache in
      let shorter = length-clean_expired_cache a.cleaned_at n.cache_expiry n.message_cache in
      let kept =
        length-remember_full r a.stored_at n.max_cache_size a.id clean some_size (omega arith) in
      let same_length = ap length seen.cache in
      let size = seen.same_size in
      let rest = see_all-bounded arrivals n' (omega arith) (omega arith) in omega arith
