-- ===== src/Rtp/Samples.antt =====
-- A packet of samples, from src/rtp_payloader.c to the depayloader behind it.
use zstreamer.Common.{
  ℕ, ◌+◌, ◌^◌, ◌≤◌, ◌<◌, ◌≡◌, refl, ap, ◌∙◌, Bool, true, false, ◌&&◌, some, List, [], if◌then◌else◌,
  ◌==◌, length, arith, if_intro,
}
use zstreamer.Types.{ZstResult, ok, add64}
use zstreamer.Rtp.{pcm, Downstream, Frame, ts_to_pts}
use zstreamer.Rtp.Payloader.{Payloader, is_refused, push_packet, advance, max_payload_bytes}
use zstreamer.Rtp.Depayloader.{Depayloader, View, begin_au, append_au, push_bytes, reset_au}
use zstreamer.Rtp.Depayloader.Codecs.{depay, depay_pcm, pcm_duration}
use zstreamer.Rtp.Header.{sent_view}
use zstreamer.Rtp.Expects.{Setting, Expects, Collects, behind, received, push_packet-accepted}
use zstreamer.Rtp.Collect.{append_au-Collects}
use zstreamer.Rtp.Fragments.{advance-Expects}
use zstreamer.Rtp.Nals.{setting}

-- A time stamp that is not the one of the open access unit begins a new one.
fresh_begin :
    (g : Setting) (s : Payloader) (d : Depayloader) (ts : ℕ)
    → Expects g s d
    → (d.au_active && (d.au_ts == ts)) ≡ false
    → Expects g s (begin_au d ts) × Collects (begin_au d ts) ts []
unfolding begin_au reset_au
fresh_begin g s d ts x h = rw (h) (ground arith)

accepted :
    (s : Payloader) (bs : List ℕ)
    → s.strict_mtu ≡ false
    → length bs ≤ 65507
    → is_refused s (length bs + 0) ≡ false
unfolding is_refused max_payload_bytes
accepted s bs strict l = ground arith

-- The counters of what has come out.
abbrev pub counted_out : Depayloader → ℕ → Depayloader
counted_out d n = record d { out_buffers = add64 d.out_buffers 1; out_bytes = add64 d.out_bytes n }

module _ {V : Type 0} (serves : ℕ → Bool) (push : Downstream Frame V) where
  -- The frame of samples; its duration is left open.
  abbrev pub samples : List ℕ → ℕ → ℕ → Frame
  samples bs pts duration = record {
    content = bs;
    pts = pts;
    duration = duration;
    discontinuity = false;
  }

  -- What a packet of samples does, by its marker, to a depayloader with another access unit open or
  -- with none.
  abbrev pub PieceDone :
      Bool
      → Setting
      → Payloader
      → ℕ
      → List ℕ
      → V
      → ZstResult × Payloader × (Depayloader × V)
      → Type 0
  PieceDone false g s ts bs v o =
      (s' : Payloader) × (d' : Depayloader) × (o ≡ (ok, s', (d', v)))
      × Expects g s' d'
      × (s'.strict_mtu ≡ s.strict_mtu)
      × (d'.au_ts ≡ ts)
  PieceDone true g s ts bs v o =
      (s' : Payloader) × (d' : Depayloader) × (duration : ℕ) × (o ≡ (
        (push (samples bs (ts_to_pts ts g.rate) duration) v).0,
        s',
        (d', (push (samples bs (ts_to_pts ts g.rate) duration) v).1),
      ))
      × Expects g s' d'
      × (d'.au_active ≡ false)

  collected :
      (rtp : View) (d d1 : Depayloader) (v : V)
      → 0 < length rtp.payload
      → append_au serves (begin_au d rtp.timestamp) rtp.payload ≡ some d1
      → depay serves push pcm rtp d v ≡ (
          if rtp.marker
          then push_bytes push d1.au_data d1.au_pts
              (pcm_duration serves push d1)
              false
              (record d1 { au_data = []; au_cap = 0; au_active = false })
              v
          else (ok, d1, v))
  unfolding depay depay_pcm
  collected rtp d d1 v n e =
      let done =
        if rtp.marker
        then push_bytes push d1.au_data d1.au_pts (pcm_duration serves push d1) false
            (record d1 { au_data = []; au_cap = 0; au_active = false }) v
        else (ok, d1, v) in
      if_intro (λ r. r ≡ done) (length rtp.payload == 0) (λ e'. absurd (ground (arith, e')))
        (λ _. rw (e) refl)

  pub pushed_frame :
      (bs : List ℕ) (pts duration : ℕ) (d : Depayloader) (v : V)
      → 0 < length bs
      → d.linked ≡ true
      → let fr = samples bs pts duration in
        push_bytes push bs pts duration false d v
        ≡ ((push fr v).0, counted_out d (length bs), (push fr v).1)
  unfolding push_bytes
  pushed_frame bs pts duration d v n l = ground (arith, l)

  taken_out : Depayloader → ℕ → Depayloader
  taken_out d n = counted_out (record d { au_data = []; au_cap = 0; au_active = false }) n

  taken_out-Expects :
      (g : Setting) (s : Payloader) (d : Depayloader) (n : ℕ)
      → Expects g s d
      → Expects g s (taken_out d n)
  unfolding taken_out
  taken_out-Expects g s d n x = ground arith

  -- The access unit is pushed as it has been collected.
  out :
      (g : Setting) (s : Payloader) (d : Depayloader) (ts : ℕ) (bs : List ℕ) (v : V)
      → Expects g s d
      → Collects d ts bs
      → 0 < length bs
      → let fr = samples bs (ts_to_pts ts g.rate) (pcm_duration serves push d) in
        push_bytes push d.au_data d.au_pts
          (pcm_duration serves push d)
          false
          (record d { au_data = []; au_cap = 0; au_active = false })
          v
        ≡ ((push fr v).0, taken_out d (length bs), (push fr v).1)
  unfolding taken_out
  out g s d ts bs v x k n =
      ap
        (λ b.
          push_bytes push b d.au_pts (pcm_duration serves push d) false
            (record d { au_data = []; au_cap = 0; au_active = false }) v)
        k.same_bytes
      ∙ ap
          (λ p.
            push_bytes push bs p (pcm_duration serves push d) false
              (record d { au_data = []; au_cap = 0; au_active = false }) v)
          (k.same_pts ∙ ap (ts_to_pts ts) x.same_rate)
      ∙ pushed_frame bs (ts_to_pts ts g.rate) (pcm_duration serves push d)
          (record d { au_data = []; au_cap = 0; au_active = false }) v n x.pushes

  module _ (served : (n : ℕ) → serves n ≡ true) where
    pub piece_done :
        (m q : ℕ) (marker : Bool) (bs : List ℕ) (ts pts_ns : ℕ) (s : Payloader) (d : Depayloader)
        (v : V)
        → Expects (setting m pcm q) s d
        → (d.au_active && (d.au_ts == ts)) ≡ false
        → s.strict_mtu ≡ false
        → 0 < length bs
        → length bs ≤ 65507
        → ts < 2 ^ 32
        → PieceDone marker (setting m pcm q) s ts bs v (
            push_packet
              (behind serves push)
              []
              bs
              (record { ts = ts; marker = marker; pts_ns = pts_ns })
              s
              (d, v))
    unfolding advance taken_out
    piece_done m q marker bs ts pts_ns s d v x h strict n l t = done marker
      where
        size : ℕ
        size = length bs + 0 + 12

        s' : Payloader
        s' = advance s size

        ready : Depayloader
        ready = received s size d

        g : Setting
        g = setting m pcm q

        begun : Expects g s' (begin_au ready ts) × Collects (begin_au ready ts) ts []
        begun = fresh_begin g s' ready ts (advance-Expects g s d size size x) h

        appended :
            (d1 : Depayloader) × (append_au serves (begin_au ready ts) bs ≡ some d1)
            × Expects g s' d1
            × Collects d1 ts bs
        appended =
            append_au-Collects serves push served g s' (begin_au ready ts) ts [] bs begun.0 begun.1
              (omega arith)

        sent :
            (marker' : Bool)
            → let r = depay serves push pcm (sent_view s bs ts marker') ready v in
              push_packet
                (behind serves push)
                []
                bs
                (record { ts = ts; marker = marker'; pts_ns = pts_ns })
                s
                (d, v)
              ≡ (r.0, s', (r.1, r.2))
        sent marker' =
            push_packet-accepted serves push g s d [] bs
              (record { ts = ts; marker = marker'; pts_ns = pts_ns }) v x t (accepted s bs strict l)
              (omega arith)

        done :
            (marker' : Bool)
            → PieceDone marker' g s ts bs v (
                push_packet
                  (behind serves push)
                  []
                  bs
                  (record { ts = ts; marker = marker'; pts_ns = pts_ns })
                  s
                  (d, v))
        done false =
            let (d1, e1, x1, k1) = appended in
            (
              s',
              d1,
              sent false
                  ∙ ap (λ r. (r.0, s', (r.1, r.2)))
                      (collected (sent_view s bs ts false) ready d1 v n e1),
              x1,
              refl,
              k1.same_ts,
            )
        done true =
            let (d1, e1, x1, k1) = appended in
            (
              s',
              taken_out d1 (length bs),
              pcm_duration serves push d1,
              sent true
                  ∙ ap (λ r. (r.0, s', (r.1, r.2)))
                      (collected (sent_view s bs ts true) ready d1 v n e1
                        ∙ out g s' d1 ts bs v x1 k1 n),
              taken_out-Expects g s' d1 (length bs) x1,
              refl,
            )
