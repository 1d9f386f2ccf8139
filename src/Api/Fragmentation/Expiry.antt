-- ===== src/Api/Fragmentation/Expiry.antt =====
-- What `expire` leaves: the entries that are young enough, and no more bytes than before.
use p2p_net.Prelude.{
  ==_iff, ◌==◌, ℕ, ◌-◌, ◌≤◌, ◌<◌, ◌≡◌, refl, sym, ◌∙◌, Bool, true, false, ◌||◌, Option, some, List,
  [], ◌∷◌, leb, arith, Option-cases, Bool-cases, inl, inr,
}
use p2p_net.Prelude.Assoc.{lookup, mem, keys, Distinct, lookup-remove, mem-keys-remove}
use p2p_net.Prelude.Weigh.{weigh, weigh-remove}
use p2p_net.Api.Fragmentation.{fragment_expiry}
use p2p_net.Api.Fragmentation.Reassembler.{
  ReassemblyKey, key_eq, ReassemblyEntry, AppFragmentReassembler, expired_keys, drop_entry,
  drop_entries, expire,
}
use p2p_net.Api.Fragmentation.Memory.{Entries, IsAccounted, drop_entry-IsAccounted}

or_false : (a b : Bool) → (a || b) ≡ false → (a ≡ false) × (b ≡ false)
or_false a b h = ground arith

==_comm_false : (a b : ReassemblyKey) → (b == a) ≡ false → (a == b) ≡ false
==_comm_false a b h = elim (Bool-cases (a == b)) [ inr e ↦ e | inl e ↦ absurd_key a b h e ]
  where
    absurd_key : (a b : ReassemblyKey) → (b == a) ≡ false → (a == b) ≡ true → (a == b) ≡ false
    absurd_key a b h e = let p = (==_iff a b).0 e in cc (h, (==_iff b a).1 (sym p))

mem-expired_keys :
    (now : ℕ) (key : ReassemblyKey) (m : Entries)
    → mem key (keys m) ≡ false
    → mem key (expired_keys now m) ≡ false
unfolding expired_keys mem
mem-expired_keys now key [] h = refl
mem-expired_keys now key ((j, entry) ∷ m) h = ground (arith, mem-expired_keys now key m)

lookup_tail :
    (key j : ReassemblyKey) (entry e : ReassemblyEntry) (m : Entries)
    → (j == key) ≡ false
    → lookup key ((j, e) ∷ m) ≡ some entry
    → lookup key m ≡ some entry
unfolding lookup
lookup_tail key j entry e m other at = rw other at at

young_head :
    (now : ℕ) (key j : ReassemblyKey) (entry e : ReassemblyEntry) (m : Entries)
    → (j == key) ≡ true
    → mem key (keys m) ≡ false
    → lookup key ((j, e) ∷ m) ≡ some entry
    → now - entry.created < fragment_expiry
    → mem key (expired_keys now ((j, e) ∷ m)) ≡ false
unfolding expired_keys lookup
young_head now key j entry e m same absent at young =
    let same_entry : e ≡ entry = some_eq (rw same at at) in
    let kept : leb fragment_expiry (now - e.created) ≡ false = ground (arith, same_entry) in
    rw (kept) (mem-expired_keys now key m absent)
  where
    some_eq : ◌≡◌ {A = Option ReassemblyEntry} (some e) (some entry) → e ≡ entry
    some_eq p = cc

young_tail :
    (now : ℕ) (key j : ReassemblyKey) (entry e : ReassemblyEntry) (m : Entries)
    → (j == key) ≡ false
    → mem key (expired_keys now m) ≡ false
    → mem key (expired_keys now ((j, e) ∷ m)) ≡ false
unfolding expired_keys mem
young_tail now key j entry e m other ih =
    elim (Bool-cases (leb fragment_expiry (now - e.created))) [
      | inl old ↦ rw (old, ==_comm_false key j other) ih
      | inr fresh ↦ rw fresh ih
    ]

young-expired_keys :
    (now : ℕ) (key : ReassemblyKey) (entry : ReassemblyEntry) (m : Entries)
    → Distinct (keys m)
    → lookup key m ≡ some entry
    → now - entry.created < fragment_expiry
    → mem key (expired_keys now m) ≡ false
unfolding expired_keys mem lookup
young-expired_keys now key entry [] d at young = refl
young-expired_keys now key entry ((j, e) ∷ m) d at young = elim (Bool-cases (j == key)) [
  | inl same ↦
      let here = (==_iff j key).0 same in
      let absent : mem key (keys m) ≡ false = rw (← here) d.0 in
      young_head now key j entry e m same absent at young
  | inr other ↦
      young_tail now key j entry e m other
        (young-expired_keys now key entry m d.1 (lookup_tail key j entry e m other at) young)
]

drop_entry-lookup :
    (j key : ReassemblyKey) (s : AppFragmentReassembler)
    → Distinct (keys s.entries)
    → (key == j) ≡ false
    → lookup key (drop_entry j s).entries ≡ lookup key s.entries
unfolding drop_entry
drop_entry-lookup j key s d other = elim (Option-cases (lookup j s.entries)) [
  | inl e ↦ rw (e, drop_entry)
  | inr (entry, e) ↦
      rw (e, drop_entry)
        (ground (arith, lookup-remove j key s.entries d, ==_iff j key, ==_iff key j))
]

drop_entries-lookup :
    (gone : List ReassemblyKey) (key : ReassemblyKey) (s : AppFragmentReassembler)
    → IsAccounted s
    → mem key gone ≡ false
    → lookup key (drop_entries gone s).entries ≡ lookup key s.entries
unfolding drop_entries mem
drop_entries-lookup [] key s v h = refl
drop_entries-lookup (j ∷ gone) key s v h =
    let (other, rest) = or_false (key == j) (mem key gone) h in
    drop_entries-lookup gone key (drop_entry j s) (drop_entry-IsAccounted j s v) rest
    ∙ drop_entry-lookup j key s v.distinct other

-- An entry that is younger than the expiry time stays as it is.
pub expire-lookup :
    (s : AppFragmentReassembler) (now : ℕ) (key : ReassemblyKey) (entry : ReassemblyEntry)
    → IsAccounted s
    → lookup key s.entries ≡ some entry
    → now - entry.created < fragment_expiry
    → lookup key (expire s now).entries ≡ some entry
unfolding expire
expire-lookup s now key entry v at young =
    drop_entries-lookup (expired_keys now s.entries) key s v
      (young-expired_keys now key entry s.entries v.distinct at young)
    ∙ at

drop_entry-weigh-le :
    (w : ReassemblyKey → ReassemblyEntry → ℕ) (j : ReassemblyKey) (s : AppFragmentReassembler)
    → weigh w (drop_entry j s).entries ≤ weigh w s.entries
unfolding drop_entry
drop_entry-weigh-le w j s = elim (Option-cases (lookup j s.entries)) [
  | inl e ↦ rw (e, drop_entry) (omega arith)
  | inr (entry, e) ↦ rw (e, drop_entry) (omega (arith, weigh-remove w j s.entries))
]

drop_entries-weigh-le :
    (w : ReassemblyKey → ReassemblyEntry → ℕ) (gone : List ReassemblyKey)
    (s : AppFragmentReassembler)
    → weigh w (drop_entries gone s).entries ≤ weigh w s.entries
unfolding drop_entries
drop_entries-weigh-le w [] s = omega arith
drop_entries-weigh-le w (j ∷ gone) s =
    omega (arith, drop_entries-weigh-le w gone (drop_entry j s), drop_entry-weigh-le w j s)

-- No sum over the entries grows.
pub expire-weigh-le :
    (w : ReassemblyKey → ReassemblyEntry → ℕ) (s : AppFragmentReassembler) (now : ℕ)
    → weigh w (expire s now).entries ≤ weigh w s.entries
unfolding expire
expire-weigh-le w s now = drop_entries-weigh-le w (expired_keys now s.entries) s

drop_entry-absent :
    (j key : ReassemblyKey) (s : AppFragmentReassembler)
    → mem key (keys s.entries) ≡ false
    → mem key (keys (drop_entry j s).entries) ≡ false
unfolding drop_entry
drop_entry-absent j key s h = elim (Option-cases (lookup j s.entries)) [
  | inl e ↦ rw (e, drop_entry) h
  | inr (entry, e) ↦ rw (e, drop_entry) (mem-keys-remove j key s.entries h)
]

drop_entries-absent :
    (gone : List ReassemblyKey) (key : ReassemblyKey) (s : AppFragmentReassembler)
    → mem key (keys s.entries) ≡ false
    → mem key (keys (drop_entries gone s).entries) ≡ false
unfolding drop_entries
drop_entries-absent [] key s h = h
drop_entries-absent (j ∷ gone) key s h =
    drop_entries-absent gone key (drop_entry j s) (drop_entry-absent j key s h)

-- No entry comes up.
pub expire-absent :
    (s : AppFragmentReassembler) (now : ℕ) (key : ReassemblyKey)
    → mem key (keys s.entries) ≡ false
    → mem key (keys (expire s now).entries) ≡ false
unfolding expire
expire-absent s now key h = drop_entries-absent (expired_keys now s.entries) key s h
