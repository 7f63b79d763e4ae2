-- ===== src/Rtp/Pieces.antt =====
-- The loop of src/rtp_payloader.c over the pieces of a buffer of samples.
use zstreamer.Common.{
  ℕ, zero, suc, ◌+◌, ◌-◌, ◌*◌, ◌/◌, ◌≤◌, ◌<◌, min, ◌≡◌, refl, ap, sym, ◌∙◌, ◌⊎◌, inl, inr, Bool,
  true, false, some, List, [], leb, length, arith,
}
use zstreamer.Common.Bytes.{take_bytes, drop_bytes, length-take_min, length-drop_bytes}
use zstreamer.Types.{ZstResult, error, add32}
use zstreamer.Rtp.{Downstream, Packet, keep}
use zstreamer.Rtp.Payloader.{Payloader, Stamp, is_refused, make_packet, push_packet}
use zstreamer.Rtp.Payloader.Access.{send_pieces}
use zstreamer.Rtp.Rounds.{take_all}

module _ {W : Type 0} (push : Downstream Packet W) (media : List ℕ) (base pts_ns frame : ℕ) where
  -- What the loop gives with a piece.
  abbrev pub stamp_at : ℕ → Bool → Stamp
  stamp_at off marker = record { ts = add32 base (off / frame); marker = marker; pts_ns = pts_ns }

  round :
      (rounds off : ℕ) (ret : ZstResult) (s : Payloader) (w : W) (r : ZstResult × Payloader × W)
      (chunk : ℕ) (last : Bool)
      → off < length media
      → min (length media - off) s.mtu ≡ chunk
      → leb (length media) (off + chunk) ≡ last
      → push_packet push [] (take_bytes chunk (drop_bytes off media)) (stamp_at off last) s w ≡ r
      → send_pieces push (suc rounds) media base pts_ns frame off (ret, s, w)
        ≡ send_pieces push rounds media base pts_ns frame (off + chunk) (keep ret r.0, r.1, r.2)
  unfolding send_pieces
  round rounds off ret s w r chunk last h c l e = ground arith

  over :
      (rounds off : ℕ) (r : ZstResult × Payloader × W)
      → length media ≤ off
      → send_pieces push rounds media base pts_ns frame off r ≡ some r
  unfolding send_pieces
  over zero off (ret, s, w) h = ground arith
  over (suc rounds) off (ret, s, w) h = ground arith

  -- A round that is not the last one, and the last one.
  pub inner_piece :
      (rounds off : ℕ) (ret : ZstResult) (s : Payloader) (w : W) (r : ZstResult × Payloader × W)
      → off + s.mtu < length media
      → push_packet push [] (take_bytes s.mtu (drop_bytes off media)) (stamp_at off false) s w ≡ r
      → send_pieces push (suc rounds) media base pts_ns frame off (ret, s, w)
        ≡ send_pieces push rounds media base pts_ns frame (off + s.mtu) (keep ret r.0, r.1, r.2)
  inner_piece rounds off ret s w r h e =
      round rounds off ret s w r s.mtu false (omega arith) (omega arith) (ground arith) e

  pub last_piece :
      (rounds off : ℕ) (ret : ZstResult) (s : Payloader) (w : W) (r : ZstResult × Payloader × W)
      → off < length media
      → length media ≤ off + s.mtu
      → push_packet push [] (drop_bytes off media) (stamp_at off true) s w ≡ r
      → send_pieces push (suc rounds) media base pts_ns frame off (ret, s, w)
        ≡ some (keep ret r.0, r.1, r.2)
  last_piece rounds off ret s w r h l e =
      let n = length-drop_bytes off media in
      round rounds off ret s w r (length media - off) true h (omega arith) (ground arith) (
        ap (λ bs. push_packet push [] bs (stamp_at off true) s w)
          (take_all (length media - off) (drop_bytes off media) (omega (arith, n)))
        ∙ e)
      ∙ over rounds (off + (length media - off)) _ (omega arith)

  refused :
      (s : Payloader) (w : W) (bs : List ℕ) (t : Stamp)
      → s.strict_mtu ≡ true
      → s.mtu < length bs + 12
      → push_packet push [] bs t s w ≡ (error, s, w)
  unfolding push_packet make_packet is_refused
  refused s w bs t strict h = ground arith

  -- The last piece, at its offset `at`.
  pub from_last :
      (rounds off at : ℕ) (ret : ZstResult) (last : List ℕ) (s : Payloader) (w : W)
      → at ≡ off
      → 0 < length last
      → length last ≤ s.mtu
      → length media ≡ at + length last
      → drop_bytes at media ≡ last
      → let r = push_packet push [] last (stamp_at at true) s w in
        send_pieces push (suc rounds) media base pts_ns frame off (ret, s, w)
        ≡ some (keep ret r.0, r.1, r.2)
  from_last rounds off at ret last s w e p l m d =
      let r = push_packet push [] last (stamp_at at true) s w in
      ap (λ o. send_pieces push (suc rounds) media base pts_ns frame o (ret, s, w)) (sym e)
      ∙ last_piece rounds at ret s w r (omega arith) (omega arith)
          (ap (λ bs. push_packet push [] bs (stamp_at at true) s w) d)

  -- In strict mode, `n` full pieces are refused, and the state stays as it was.
  pub full_pieces_refused :
      (n rounds off at : ℕ) (ret : ZstResult) (last : List ℕ) (s : Payloader) (w : W)
      → s.strict_mtu ≡ true
      → 0 < length last
      → length last ≤ s.mtu
      → at ≡ off + n * s.mtu
      → length media ≡ at + length last
      → drop_bytes at media ≡ last
      → n < rounds
      → (0 < n) ⊎ (ret ≡ error)
      → let r = push_packet push [] last (stamp_at at true) s w in
        send_pieces push rounds media base pts_ns frame off (ret, s, w)
        ≡ some (keep error r.0, r.1, r.2)
  full_pieces_refused n zero off at ret last s w strict p l e m d r k = absurd (omega arith)
  full_pieces_refused zero (suc rounds) off at ret last s w strict p l e m d r (inl k) =
      absurd (omega arith)
  full_pieces_refused zero (suc rounds) off at ret last s w strict p l e m d r (inr k) =
      let r' = push_packet push [] last (stamp_at at true) s w in
      from_last rounds off at ret last s w (omega arith) p l m d
      ∙ ap (λ q. some (keep q r'.0, r'.1, r'.2)) k
  full_pieces_refused (suc n) (suc rounds) off at ret last s w strict p l e m d r k =
      inner_piece rounds off ret s w (error, s, w) (omega arith)
        (refused s w (take_bytes s.mtu (drop_bytes off media)) (stamp_at off false) strict (
          omega (arith, length-take_min s.mtu (drop_bytes off media), length-drop_bytes off media)))
      ∙ full_pieces_refused n rounds (off + s.mtu) at error last s w strict p l (omega arith) m d
          (omega arith) (inr refl)
