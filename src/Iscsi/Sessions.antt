-- ===== src/Iscsi/Sessions.antt =====
-- cmd/iscsi_util.go: lines of `iscsiadm --mode session`, with and without a last field.
use truenas_incus_ctl.Base.{
  ℕ, suc, ◌+◌, ◌≡◌, refl, sym, ap, ◌∙◌, true, false, ◌∷◌, ◌++◌, append_assoc, some, Str, codes,
  index_of, last_index_of, length, length-append, drop, eqb, arith, str_eq, take-length-append,
}
use truenas_incus_ctl.Base.Dict.{Dict, has}
use truenas_incus_ctl.Options.Splitting.{Lacks}
use truenas_incus_ctl.Iscsi.Slices.{
  index_of-append, last_index_of-append, slice-middle, slice-out, slice_from-middle, drop-past,
}
use truenas_incus_ctl.Iscsi.Listings.{
  slice, slice_from, takes, fails, spec_of, comma_before, session_target, session_at, session_from,
  session_line,
}

before :
    (addr tag : Str) → comma_before (some (length addr)) (length (addr ++ b',' ∷ tag)) ≡ length addr
unfolding comma_before
before addr tag = ground (arith, length-append addr (b',' ∷ tag))

-- A line up to the address, and the address with what stands between it and the first space.
abbrev pub start_of : Str → Str
start_of head = head ++ codes "] "

abbrev pub portal_of : Str → Str → Str
portal_of addr tag = addr ++ b',' ∷ tag

-- A line: what follows the first space is `rest`.
abbrev pub line_of : Str → Str → Str → Str → Str
line_of head addr tag rest = start_of head ++ (portal_of addr tag ++ b' ' ∷ rest)

module _ {V : Type 0} (volumes : Dict Str V) where
  -- The positions in a line, given that of its last space.
  line-session_at :
      (head addr tag rest : Str) (last : ℕ)
      → Lacks b']' head
      → Lacks b',' addr
      → Lacks b' ' (portal_of addr tag)
      → last_index_of b' ' (line_of head addr tag rest) ≡ some last
      → session_line volumes (line_of head addr tag rest)
        ≡ session_at volumes
            (line_of head addr tag rest)
            (length head + 2)
            (length (portal_of addr tag))
            (length addr)
            last
  unfolding session_line session_from
  line-session_at head addr tag rest last h c s e =
      let tail = portal_of addr tag ++ b' ' ∷ rest in
      let bracket : index_of b']' (line_of head addr tag rest) ≡ some (length head) =
        ap (index_of b']') (append_assoc head (codes "] ") tail)
        ∙ index_of-append b']' head (b' ' ∷ tail) h in
      let from : slice_from (length head + 2) (line_of head addr tag rest) ≡ some tail =
        slice_from-middle (start_of head) tail (length head + 2)
          (omega (arith, length-append head (codes "] "))) in
      let comma : index_of b',' tail ≡ some (length addr) =
        ap (index_of b',') (append_assoc addr (b',' ∷ tag) (b' ' ∷ rest))
        ∙ index_of-append b',' addr (tag ++ b' ' ∷ rest) c in
      rw
        (
          session_line,
          bracket,
          from,
          session_from,
          index_of-append b' ' (portal_of addr tag) rest s,
          e,
          comma,
          before addr tag,
        )
        refl

  -- The address in a line.
  addr-slice :
      (head addr tag rest : Str)
      → slice (length head + 2) (length head + 2 + length addr) (line_of head addr tag rest)
        ≡ some addr
  addr-slice head addr tag rest =
      ap (λ (t : Str). slice (length head + 2) (length head + 2 + length addr) (start_of head ++ t))
        (append_assoc addr (b',' ∷ tag) (b' ' ∷ rest))
      ∙ slice-middle (start_of head) addr (b',' ∷ tag ++ b' ' ∷ rest) _ _
          (omega (arith, length-append head (codes "] ")))
          (omega (arith, length-append head (codes "] ")))

  -- All before what follows the first space.
  abbrev pub lead_of : Str → Str → Str → Str
  lead_of head addr tag = start_of head ++ (portal_of addr tag ++ codes " ")

  line-lead :
      (head addr tag rest : Str) → line_of head addr tag rest ≡ lead_of head addr tag ++ rest
  line-lead head addr tag rest =
      ap (λ (t : Str). start_of head ++ t)
        (sym (append_assoc (portal_of addr tag) (codes " ") rest))
      ∙ sym (append_assoc (start_of head) (portal_of addr tag ++ codes " ") rest)

  lead-length :
      (head addr tag : Str)
      → length (lead_of head addr tag) ≡ length head + 2 + length (portal_of addr tag) + 1
  lead-length head addr tag = omega (
    arith,
    length-append head (codes "] "),
    length-append (start_of head) (portal_of addr tag ++ codes " "),
    length-append (portal_of addr tag) (codes " "),
  )

  -- The name of a target that serves a volume.
  session_target-found :
      (addr iqn target : Str)
      → Lacks b':' iqn
      → has target volumes ≡ true
      → session_target volumes (some addr) (some (iqn ++ b':' ∷ target))
        ≡ takes (record { remote_ip = addr; iqn = iqn; target = target })
  unfolding session_target spec_of
  session_target-found addr iqn target i v =
      let rest : drop (suc (length iqn)) (iqn ++ b':' ∷ target) ≡ target =
        drop-past iqn b':' target in
      rw
        (
          session_target,
          index_of-append b':' iqn target i,
          rest,
          v,
          take-length-append iqn (b':' ∷ target),
        )
        refl

  session_at-found :
      (head addr tag full flags : Str) (last : ℕ)
      → last ≡ length (lead_of head addr tag ++ full)
      → session_at volumes
          (line_of head addr tag (full ++ b' ' ∷ flags))
          (length head + 2)
          (length (portal_of addr tag))
          (length addr)
          last
        ≡ session_target volumes (some addr) (some full)
  unfolding session_at
  session_at-found head addr tag full flags last e =
      let lead = lead_of head addr tag in
      let rest = full ++ b' ' ∷ flags in
      let ne : eqb last (length (portal_of addr tag)) ≡ false =
        ground (arith, e, length-append lead full, lead-length head addr tag) in
      let name : slice (length head + 2 + length (portal_of addr tag) + 1) last
            (line_of head addr tag rest)
          ≡ some full =
        ap (slice (length head + 2 + length (portal_of addr tag) + 1) last)
          (line-lead head addr tag rest)
        ∙ slice-middle lead full (b' ' ∷ flags) _ _ (sym (lead-length head addr tag))
            (e ∙ length-append lead full) in
      rw (session_at, ne, addr-slice head addr tag rest, name) refl

  session_at-fails :
      (head addr tag full : Str) (last : ℕ)
      → last ≡ length head + 2 + length (portal_of addr tag)
      → session_at volumes
          (line_of head addr tag full)
          (length head + 2)
          (length (portal_of addr tag))
          (length addr)
          last
        ≡ fails
  unfolding session_at session_target
  session_at-fails head addr tag full last e =
      let ne : eqb last (length (portal_of addr tag)) ≡ false = ground (arith, e) in
      rw
        (
          session_at,
          ne,
          addr-slice head addr tag full,
          slice-out (line_of head addr tag full) (length head + 2 + length (portal_of addr tag) + 1)
              last (omega (arith, e)),
        )
        refl

  last_space :
      (head addr tag full flags : Str)
      → Lacks b' ' flags
      → last_index_of b' ' (line_of head addr tag (full ++ b' ' ∷ flags))
        ≡ some (length (lead_of head addr tag ++ full))
  last_space head addr tag full flags g =
      let lead = lead_of head addr tag in
      ap (last_index_of b' ') (
        line-lead head addr tag (full ++ b' ' ∷ flags)
        ∙ sym (append_assoc lead full (b' ' ∷ flags)))
      ∙ last_index_of-append b' ' (lead ++ full) flags g

  only_space :
      (head addr tag full : Str)
      → Lacks b' ' full
      → last_index_of b' ' (line_of head addr tag full)
        ≡ some (length (start_of head ++ portal_of addr tag))
  only_space head addr tag full f =
      ap (last_index_of b' ')
        (sym (append_assoc (start_of head) (portal_of addr tag) (b' ' ∷ full)))
      ∙ last_index_of-append b' ' (start_of head ++ portal_of addr tag) full f

  -- A line of the list of sessions, "head] addr,tag iqn:target flags", for a target that serves a
  -- volume, is read as that address, that iqn and that target, where the bytes that part its fields
  -- do not stand in the fields before them; without the last field the line panics.
  pub session_line-read_back :
      (head addr tag iqn target flags : Str)
      → Lacks b']' head
      → Lacks b',' addr
      → Lacks b' ' (portal_of addr tag)
      → Lacks b':' iqn
      → Lacks b' ' (iqn ++ b':' ∷ target)
      → Lacks b' ' flags
      → has target volumes ≡ true
      → (session_line volumes (line_of head addr tag ((iqn ++ b':' ∷ target) ++ b' ' ∷ flags))
          ≡ takes (record { remote_ip = addr; iqn = iqn; target = target }))
        × (session_line volumes (line_of head addr tag (iqn ++ b':' ∷ target)) ≡ fails)
  session_line-read_back head addr tag iqn target flags h c s i f g v =
      let full = iqn ++ b':' ∷ target in
      (
        line-session_at head addr tag (full ++ b' ' ∷ flags) _ h c s
              (last_space head addr tag full flags g)
            ∙ session_at-found head addr tag full flags _ refl
            ∙ session_target-found addr iqn target i v,
        line-session_at head addr tag full _ h c s (only_space head addr tag full f)
            ∙ session_at-fails head addr tag full _ (
                length-append (start_of head) (portal_of addr tag)
                ∙ ap (λ (n : ℕ). n + length (portal_of addr tag))
                    (length-append head (codes "] "))),
      )
