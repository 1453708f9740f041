-- ===== src/Capture/Motion.antt =====
-- internal/input/all_devices_capture.go: the motion that is accumulated between two ticks, and the
-- channel.
use waymon.Common.{
  if_elim, ℕ, ◌≡◌, ◌≢◌, refl, ap, ◌∙◌, false, ◌&&◌, ◌==◌, leb, List, [], ◌∷◌, if◌then◌else◌, arith,
  sym, subst,
}
use waymon.Common.Int.{ℤ, pos, ◌+ℤ◌, int32, InInt32, int32-InInt32}
use waymon.Capture.State.{Evdev}
use waymon.Capture.Events.{
  EventType, ev_rel, ev_key, ev_other, DeviceEvent, Reading, track_ctrl, read_rel, read_key,
  read_type, read_events, is_emergency,
}

-- A wrapped summand changes nothing in a wrapped sum.
int32-+ℤ : (a b : ℤ) → int32 (int32 a +ℤ b) ≡ int32 (a +ℤ b)
unfolding int32 ◌+ℤ◌
int32-+ℤ a b = ground arith

+ℤ_assoc : (a b c : ℤ) → int32 (a +ℤ b +ℤ c) ≡ int32 (a +ℤ (b +ℤ c))
unfolding ◌+ℤ◌
+ℤ_assoc a b c = ap int32 (ground arith)

+ℤ_zero : (a : ℤ) → InInt32 a → int32 (a +ℤ pos 0) ≡ a
unfolding ◌+ℤ◌ int32
+ℤ_zero a h = ground arith

-- What one event adds to the axis of a code, and what a sequence adds.
abbrev pub moves : ℕ → EventType → ℕ → ℤ → ℤ
moves axis ev_rel code value = if code == axis then value else pos 0
moves axis ev_key code value = pos 0
moves axis ev_other code value = pos 0

unfoldable pub moved : ℕ → List DeviceEvent → ℤ
moved axis [] = pos 0
moved axis (e ∷ es) = moves axis e.type e.code e.value +ℤ moved axis es

-- One step more of a sum that wraps.
next_sum : (a z m t : ℤ) → a ≡ int32 (z +ℤ m) → int32 (a +ℤ t) ≡ int32 (z +ℤ (m +ℤ t))
next_sum a z m t e = ap (λ (w : ℤ). int32 (w +ℤ t)) e ∙ int32-+ℤ (z +ℤ m) t ∙ +ℤ_assoc z m t

module _ {E : Evdev} where
  -- The two axes are told apart.
  abbrev HorizontalIs : ℤ → Reading E → Type 0
  HorizontalIs z r = r.acc_x ≡ z

  abbrev VerticalIs : ℤ → Reading E → Type 0
  VerticalIs z r = r.acc_y ≡ z

  keeps_x : (r : Reading E) → InInt32 r.acc_x → r.acc_x ≡ int32 (r.acc_x +ℤ pos 0)
  keeps_x r h = sym (+ℤ_zero r.acc_x h)

  keeps_y : (r : Reading E) → InInt32 r.acc_y → r.acc_y ≡ int32 (r.acc_y +ℤ pos 0)
  keeps_y r h = sym (+ℤ_zero r.acc_y h)

  key_motion :
      (now code : ℕ) (value : ℤ) (r : Reading E)
      → HorizontalIs r.acc_x (read_key now code value r)
        × VerticalIs r.acc_y (read_key now code value r)
  unfolding read_key
  key_motion now code value r =
      let a = track_ctrl code value r.capture in
      let P : Reading E → Type 0 = λ q. HorizontalIs r.acc_x q × VerticalIs r.acc_y q in
      if_elim P (is_emergency code value a) (λ _. (refl, refl))
        (λ _.
          if_elim P (leb E.btn_left code && leb code E.btn_task) (λ _. (refl, refl))
            (λ _. (refl, refl)))

  rel_x_motion :
      (now code : ℕ) (value : ℤ) (r : Reading E)
      → InInt32 r.acc_x
      → HorizontalIs
          (int32 (r.acc_x +ℤ moves E.rel_x ev_rel code value))
          (read_rel now code value r)
  unfolding read_rel
  rel_x_motion now code value r h =
      let P : Reading E → Type 0 =
        HorizontalIs (int32 (r.acc_x +ℤ moves E.rel_x ev_rel code value)) in
      if_elim P (code == E.rel_x) (λ e. rw e refl)
        (λ e.
          if_elim P (code == E.rel_y) (λ _. rw e (keeps_x r h))
            (λ _.
              if_elim P (code == E.rel_wheel) (λ _. rw e (keeps_x r h))
                (λ _.
                  if_elim P (code == E.rel_hwheel) (λ _. rw e (keeps_x r h))
                    (λ _. rw e (keeps_x r h)))))

  rel_y_motion :
      E.rel_x ≢ E.rel_y
      → (now code : ℕ) (value : ℤ) (r : Reading E) → InInt32 r.acc_y
      → VerticalIs (int32 (r.acc_y +ℤ moves E.rel_y ev_rel code value)) (read_rel now code value r)
  unfolding read_rel
  rel_y_motion d now code value r h =
      let P : Reading E → Type 0 =
        VerticalIs (int32 (r.acc_y +ℤ moves E.rel_y ev_rel code value)) in
      if_elim P (code == E.rel_x)
        (λ e. let f : (code == E.rel_y) ≡ false = ground (arith, e, d) in (rw f (keeps_y r h)))
        (λ _.
          if_elim P (code == E.rel_y) (λ e. rw e refl)
            (λ e.
              if_elim P (code == E.rel_wheel) (λ _. rw e (keeps_y r h))
                (λ _.
                  if_elim P (code == E.rel_hwheel) (λ _. rw e (keeps_y r h))
                    (λ _. rw e (keeps_y r h)))))

  type_motion :
      E.rel_x ≢ E.rel_y
      → (type : EventType) (now code : ℕ) (value : ℤ) (r : Reading E) → InInt32 r.acc_x
      → InInt32 r.acc_y
      → HorizontalIs
          (int32 (r.acc_x +ℤ moves E.rel_x type code value))
          (read_type type now code value r)
        × VerticalIs
            (int32 (r.acc_y +ℤ moves E.rel_y type code value))
            (read_type type now code value r)
  type_motion d ev_rel now code value r h k =
      (rel_x_motion now code value r h, rel_y_motion d now code value r k)
  type_motion d ev_key now code value r h k =
      ((key_motion now code value r).0 ∙ keeps_x r h, (key_motion now code value r).1 ∙ keeps_y r k)
  type_motion d ev_other now code value r h k = (keeps_x r h, keeps_y r k)

  -- From int32 accumulators, where the codes of the axes differ, the loop's `acc_x` and `acc_y` grow
  -- by the sums of the values of the `EV_REL` events of their axes, wrapped to int32 once, whatever
  -- other events come between.
  pub read_events-moved :
      E.rel_x ≢ E.rel_y
      → (now : ℕ) (es : List DeviceEvent) (r : Reading E) → InInt32 r.acc_x
      → InInt32 r.acc_y
      → ((read_events now es r).acc_x ≡ int32 (r.acc_x +ℤ moved E.rel_x es))
        × ((read_events now es r).acc_y ≡ int32 (r.acc_y +ℤ moved E.rel_y es))
  unfolding read_events moved
  read_events-moved d now [] r h k = (keeps_x r h, keeps_y r k)
  read_events-moved d now (e ∷ es) r h k =
      let r1 = read_type e.type now e.code e.value r in
      let m = type_motion d e.type now e.code e.value r h k in
      let rest =
        read_events-moved d now es r1 (subst InInt32 (sym m.0) (int32-InInt32 _))
          (subst InInt32 (sym m.1) (int32-InInt32 _)) in
      (
        rest.0
            ∙ next_sum r1.acc_x r.acc_x (moves E.rel_x e.type e.code e.value) (moved E.rel_x es)
                m.0,
        rest.1
            ∙ next_sum r1.acc_y r.acc_y (moves E.rel_y e.type e.code e.value) (moved E.rel_y es)
                m.1,
      )
