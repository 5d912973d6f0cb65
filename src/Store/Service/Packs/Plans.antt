-- ===== src/Store/Service/Packs/Plans.antt =====
-- store/src/service.rs: the ranges of the members of a pack.
use p2pnas.Prelude.{
  ℕ, zero, suc, ◌+◌, ◌≡◌, sym, ap, ◌∙◌, false, ltb, ge→ltb, List, [], ◌∷◌, ◌++◌, append_assoc, some,
  length, take, drop, get_elem?, length-append, take-append, drop-append, arith,
}
use p2pnas.Prelude.Int.{pos}
use p2pnas.Prelude.Results.{ok, ok_steps, ok_inj}
use p2pnas.Core.Bytes.{Bytes, be_bytes}
use p2pnas.Store.Manifest.{FileRow}
use p2pnas.Store.Service.Packs.{
  PackEntry, PackRange, pack_magic, payload, ranges_from, fits_u32, index_of, build_pack, slice_at,
  member_slice,
}

-- A range of a member, from the members before it on.
slice_at-ranges_from :
    (es : List PackEntry) (i off len : ℕ) (front rest : Bytes) (e : PackEntry)
    → get_elem? (ranges_from (length front) es) i ≡ some (off, len)
    → get_elem? es i ≡ some e
    → slice_at (front ++ (payload es ++ rest)) (some (pos off)) (some (pos len)) ≡ ok e.bytes
unfolding ranges_from payload
slice_at-ranges_from [] i off len front rest e r h = cc
slice_at-ranges_from (x ∷ es) zero off len front rest e r h =
    let same : ◌≡◌ {A = ℕ × ℕ} (length front, length x.bytes) (off, len) = cc in
    let whole = append_assoc x.bytes (payload es) rest in
    let inside : ltb (length (front ++ ((x.bytes ++ payload es) ++ rest)))
          (length front + length x.bytes)
        ≡ false =
      ge→ltb _ _ (
        omega (
          arith,
          length-append front ((x.bytes ++ payload es) ++ rest),
          ap length whole,
          length-append x.bytes (payload es ++ rest),
        )) in
    let cut : take (length x.bytes)
          (drop (length front) (front ++ ((x.bytes ++ payload es) ++ rest)))
        ≡ x.bytes =
      ap (take (length x.bytes)) (drop-append front ((x.bytes ++ payload es) ++ rest) ∙ whole)
      ∙ take-append x.bytes (payload es ++ rest) in
    let here : x ≡ e = cc in
    ap
      (λ (t : ℕ × ℕ).
        slice_at (front ++ ((x.bytes ++ payload es) ++ rest)) (some (pos t.0)) (some (pos t.1)))
      (sym same)
    ∙ (rw inside (ap ok cut))
    ∙ ap (λ (y : PackEntry). ok y.bytes) here
slice_at-ranges_from (x ∷ es) (suc i) off len front rest e r h =
    let longer = length-append front x.bytes in
    let regroup : front ++ ((x.bytes ++ payload es) ++ rest)
        ≡ (front ++ x.bytes) ++ (payload es ++ rest) =
      ap (λ t. front ++ t) (append_assoc x.bytes (payload es) rest)
      ∙ sym (append_assoc front x.bytes (payload es ++ rest)) in
    ap (λ t. slice_at t (some (pos off)) (some (pos len))) regroup
    ∙ slice_at-ranges_from es i off len (front ++ x.bytes) rest e
        (ap (λ k. get_elem? (ranges_from k es) i) longer ∙ r) h

-- A row that has the range of an entry reads the bytes of that entry from the pack.
pub member_slice-build_pack :
    (entries : List PackEntry) (plain : Bytes) (ranges : List PackRange) (i off len : ℕ)
    (e : PackEntry) (member : FileRow)
    → build_pack entries ≡ ok (plain, ranges)
    → get_elem? entries i ≡ some e
    → get_elem? ranges i ≡ some (off, len)
    → member.pack_offset ≡ some (pos off)
    → member.pack_len ≡ some (pos len)
    → member_slice plain member ≡ ok e.bytes
unfolding build_pack member_slice
member_slice-build_pack entries plain ranges i off len e member built at_e at_r o l =
    let (index, e1, _) = ok_steps (index_of entries (ranges_from 0 entries)) _ built in
    let (_, e2, _) = ok_steps (fits_u32 (length index)) _ e1 in
    let same = ok_inj e2 in
    let range : get_elem? (ranges_from 0 entries) i ≡ some (off, len) =
      ap (λ (t : Bytes × List PackRange). get_elem? t.1 i) same ∙ at_r in
    rw o (
      rw l (
        ap (λ (t : Bytes × List PackRange). slice_at t.0 (some (pos off)) (some (pos len)))
          (sym same)
        ∙ slice_at-ranges_from entries i off len []
            (index ++ (be_bytes 4 (length index) ++ pack_magic)) e range at_e))
