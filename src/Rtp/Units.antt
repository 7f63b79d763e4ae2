-- ===== src/Rtp/Units.antt =====
-- A whole NAL unit, in one packet or in fragments, arrives in the access unit behind a start code.
use zstreamer.Common.{
  ℕ, zero, suc, ◌+◌, ◌-◌, ◌^◌, ◌≤◌, ◌<◌, ◌≡◌, ap, sym, subst, ◌∙◌, Bool, true, false, ◌&&◌, Option,
  some, List, [], ◌∷◌, ◌++◌, length, length-append, arith,
}
use mathlib.Core.List.{append_assoc}
use native.Mathlib.Decide.{dec_lt}
use zstreamer.Common.Bytes.{
  take_bytes, drop_bytes, take-drop, drop-drop, length-drop_bytes, length-take_min,
}
use zstreamer.Types.{ZstResult, ok}
use zstreamer.Rtp.{Downstream, Frame}
use zstreamer.Rtp.Payloader.{Payloader, Stamp, push_packet, send_fragments}
use zstreamer.Rtp.Depayloader.{Depayloader}
use zstreamer.Rtp.Expects.{Setting, Expects, Collects, behind}
use zstreamer.Rtp.Fragments.{Begun, Gives, Sent, CutsAs, sent_first, sent_next}
use zstreamer.Rtp.Rounds.{marker_last, marker_inside, keep_ok, take_all, loop_step, loop_over}

module _ {V : Type 0} (serves : ℕ → Bool) (push : Downstream Frame V) where
  -- The sending of a unit ends, and gives this access unit.
  abbrev pub Delivered :
      Setting → Bool → ℕ → List ℕ → V → Option (ZstResult × Payloader × (Depayloader × V)) → Type 0
  Delivered g marker ts au v o =
      (s' : Payloader) × (r : ZstResult) × (d' : Depayloader) × (v' : V) × (o
        ≡ some (r, s', (d', v')))
      × Gives serves push g s' marker ts au v (r, d', v')

  module _ (served : (n : ℕ) → serves n ≡ true) (g : Setting) (fu : Bool → Bool → List ℕ) (k : ℕ)
      (hdr : List ℕ) (cuts : CutsAs serves push g.codec fu k hdr) (fits : g.mtu ≤ 65507) (limit : ℕ)
      (room : limit + k + 12 ≤ g.mtu) (goes_on : 0 < limit) where
    -- What sending one fragment at an offset gives, where the access unit then is `pre` and it.
    abbrev Step : Bool → List ℕ → Stamp → ℕ → List ℕ → Payloader → Depayloader → V → Type 0
    Step first nal t off pre s d v =
        (last : Bool) (body : List ℕ) (marker : Bool)
        → 0 < length body
        → length body ≤ limit
        → off + length body ≤ length nal
        → Sent serves push g marker t.ts (pre ++ body) v (
            push_packet (behind serves push) (fu first last) body (record t { marker = marker }) s
              (d, v))

    loop :
        ℕ
        → List ℕ
        → Stamp
        → ℕ
        → Bool
        → ZstResult
        → Payloader
        → Depayloader
        → V
        → Option (ZstResult × Payloader × (Depayloader × V))
    loop rounds nal t off first ret s d v =
        send_fragments (behind serves push) rounds fu limit nal t off first (ret, s, (d, v))

    last_round :
        (first : Bool) (rounds : ℕ) (nal : List ℕ) (t : Stamp) (off : ℕ) (pre : List ℕ)
        (s : Payloader) (d : Depayloader) (v : V)
        → Step first nal t off pre s d v
        → off < length nal
        → length nal ≤ off + limit
        → Delivered g t.marker t.ts
            (pre ++ drop_bytes off nal)
            v
            (loop (suc rounds) nal t off first ok s d v)
    unfolding loop
    last_round first rounds nal t off pre s d v step o l =
        let chunk = length nal - off in
        let body = drop_bytes off nal in
        let n = length-drop_bytes off nal in
        let (s', r, d', v', e, given) =
          step true body t.marker (omega (arith, n)) (omega (arith, n)) (omega (arith, n)) in
        let stamped =
          ap
            (λ m.
              push_packet (behind serves push) (fu first true) body (record t { marker = m }) s
                (d, v))
            (marker_last t.marker) in
        let whole = take_all chunk body (omega (arith, n)) in
        let whole' =
          ap
            (λ b.
              push_packet (behind serves push) (fu first true) b
                (record t { marker = t.marker && true }) s (d, v))
            whole in
        (
          s',
          r,
          d',
          v',
          loop_step (behind serves push) fu limit rounds nal t off first ok r s s' (d, v) (d', v')
                chunk true o (omega arith) (ground arith) (whole' ∙ stamped ∙ e)
              ∙ loop_over (behind serves push) fu limit rounds nal t (off + chunk) false _
                  (omega arith)
              ∙ ap (λ q. some (q, s', (d', v'))) (keep_ok r),
          given,
        )

    inner_round :
        (first : Bool) (rounds : ℕ) (nal : List ℕ) (t : Stamp) (off : ℕ) (pre : List ℕ)
        (s : Payloader) (d : Depayloader) (v : V)
        → Step first nal t off pre s d v
        → off + limit < length nal
        → ((s' : Payloader) (d' : Depayloader)
            → Expects g s' d'
            → Collects d' t.ts (pre ++ take_bytes limit (drop_bytes off nal))
            → Delivered g t.marker t.ts
                ((pre ++ take_bytes limit (drop_bytes off nal)) ++ drop_bytes (off + limit) nal)
                v
                (loop rounds nal t (off + limit) false ok s' d' v))
        → Delivered g t.marker t.ts
            (pre ++ drop_bytes off nal)
            v
            (loop (suc rounds) nal t off first ok s d v)
    unfolding loop
    inner_round first rounds nal t off pre s d v step o further =
        let body = take_bytes limit (drop_bytes off nal) in
        let n = length-take_min limit (drop_bytes off nal) in
        let n' = length-drop_bytes off nal in
        let (s', r, d', v', e, (x', (q, same, c'))) =
          step false body false (omega (arith, n, n')) (omega (arith, n, n'))
            (omega (arith, n, n')) in
        let stamped =
          ap
            (λ m.
              push_packet (behind serves push) (fu first false) body (record t { marker = m }) s
                (d, v))
            (marker_inside t.marker) in
        let into =
          loop_step (behind serves push) fu limit rounds nal t off first ok r s s' (d, v) (d', v')
            limit false (omega arith) (omega arith) (ground arith) (stamped ∙ e)
          ∙ ap (λ q'. loop rounds nal t (off + limit) false q' s' d' v') (keep_ok r ∙ q)
          ∙ ap (loop rounds nal t (off + limit) false ok s' d') same in
        subst (Delivered g t.marker t.ts (pre ++ drop_bytes off nal) v) (sym into) (
          subst
            (λ au.
              Delivered g t.marker t.ts au v (loop rounds nal t (off + limit) false ok s' d' v))
            (append_assoc pre body (drop_bytes (off + limit) nal)
              ∙ ap (λ b. pre ++ b)
                  (ap (λ b. body ++ b) (sym (drop-drop off limit nal))
                    ∙ take-drop limit (drop_bytes off nal)))
            (further s' d' x' c'))

    rest_sent :
        (rounds : ℕ) (nal : List ℕ) (t : Stamp) (off : ℕ) (cur : List ℕ) (s : Payloader)
        (d : Depayloader) (v : V)
        → Expects g s d
        → Collects d t.ts cur
        → t.ts < 2 ^ 32
        → off < length nal
        → length nal ≤ off + rounds
        → length cur + length nal < off + 2 ^ 63
        → Delivered g t.marker t.ts
            (cur ++ drop_bytes off nal)
            v
            (loop rounds nal t off false ok s d v)
    rest_sent zero nal t off cur s d v x c h o n b = absurd (omega arith)
    rest_sent (suc rounds) nal t off cur s d v x c h o n b =
        elim (dec_lt (off + limit) (length nal)) [
          | no l ↦ last_round false rounds nal t off cur s d v step o (omega arith)
          | yes l ↦ inner_round false rounds nal t off cur s d v step l (λ s' d' x' c'.
              rest_sent rounds nal t (off + limit) _ s' d' v x' c' h l (omega arith)
                (omega (arith, length-append cur (take_bytes limit (drop_bytes off nal)), taken)))
        ]
      where
        step : Step false nal t off cur s d v
        step last body marker p q r =
            sent_next serves push served g fu k hdr cuts fits last body cur
              (record t { marker = marker }) s d v x c h p (omega arith) (omega arith)

        taken : length (take_bytes limit (drop_bytes off nal)) ≤ limit
        taken = omega (arith, length-take_min limit (drop_bytes off nal))

    -- The whole loop, from its first fragment at the offset `off`.
    pub fragments-Delivered :
        (nal : List ℕ) (t : Stamp) (off : ℕ) (acc : List ℕ) (s : Payloader) (d : Depayloader)
        (v : V)
        → Expects g s d
        → Begun d t.ts acc
        → t.ts < 2 ^ 32
        → off < length nal
        → length acc + length hdr + length nal + 4 < off + 2 ^ 63
        → Delivered g t.marker t.ts (acc ++ (0 ∷ 0 ∷ 0 ∷ 1 ∷ (hdr ++ drop_bytes off nal))) v (
            send_fragments
              (behind serves push)
              (length nal)
              fu
              limit
              nal
              t
              off
              true
              (ok, s, (d, v)))
    unfolding loop
    fragments-Delivered [] t off acc s d v x c h o b = absurd (omega arith)
    fragments-Delivered (a ∷ nal) t off acc s d v x c h o b =
        subst
          (λ au.
            Delivered g t.marker t.ts au v (loop (length (a ∷ nal)) (a ∷ nal) t off true ok s d v))
          (append_assoc acc (0 ∷ 0 ∷ 0 ∷ 1 ∷ hdr) (drop_bytes off (a ∷ nal)))
          (elim (dec_lt (off + limit) (length (a ∷ nal))) [
            | no l ↦ last_round true (length nal) (a ∷ nal) t off pre s d v step o (omega arith)
            | yes l ↦ inner_round true (length nal) (a ∷ nal) t off pre s d v step l (λ s' d' x' c'.
                rest_sent (length nal) (a ∷ nal) t (off + limit) _ s' d' v x' c' h l (omega arith) (
                  omega (
                    arith,
                    length-append pre (take_bytes limit (drop_bytes off (a ∷ nal))),
                    length-append acc (0 ∷ 0 ∷ 0 ∷ 1 ∷ hdr),
                    taken,
                  )))
          ])
      where
        pre : List ℕ
        pre = acc ++ (0 ∷ 0 ∷ 0 ∷ 1 ∷ hdr)

        step : Step true (a ∷ nal) t off pre s d v
        step last body marker p q r =
            subst
              (λ au. Sent serves push g marker t.ts au v (
                push_packet (behind serves push) (fu true last) body (record t { marker = marker })
                  s (d, v)))
              (sym (append_assoc acc (0 ∷ 0 ∷ 0 ∷ 1 ∷ hdr) body))
              (sent_first serves push served g fu k hdr cuts fits last body acc
                (record t { marker = marker }) s d v x c h p (omega arith) (omega arith))

        taken : length (take_bytes limit (drop_bytes off (a ∷ nal))) ≤ limit
        taken = omega (arith, length-take_min limit (drop_bytes off (a ∷ nal)))
