-- ===== src/Client/Log.antt =====
-- What the log of a session says of its terminals, and what every operation leaves as it is.
use network_skill_lab.Prelude.{
  Bool, List, Option, [], arith, false, inl, inr, refl, true, ℕ, ◌<◌, ◌∙◌, ◌∷◌, ◌≡◌, ◌≤◌, ◌⊎◌,
}
use network_skill_lab.Content.Lab.{Bytes}
use network_skill_lab.Client.Session.{
  written, write, send, Sent, Value, Session, ping_sent, progress_sent, result_sent,
  stream_closed_sent, frame_sent, stream_value,
}

module _ (marshal : Value → Option Bytes) where
  -- The result that gives the control plane this id.
  abbrev pub Announces : Sent → ℕ → Type 0
  Announces (result_sent r) id = (r.is_ok ≡ true) × (r.value ≡ marshal (stream_value id))
  Announces _ id = ⊥

  abbrev pub Announced : ℕ → List Sent → Type 0
  Announced id [] = ⊥
  Announced id (m ∷ older) = Announces m id ⊎ Announced id older

  -- Every frame of a terminal is newer than the result that announces its id.
  abbrev pub Ordered : List Sent → Type 0
  Ordered [] = Unit
  Ordered (frame_sent id bytes ∷ older) = Announced id older × Ordered older
  Ordered (m ∷ older) = Ordered older

  -- The socket is closed, or the id is announced.
  abbrev pub Known : Session → ℕ → Type 0
  Known s id = (s.broken ≡ true) ⊎ Announced id s.sent

  -- From `s` to `t` nothing is sent out of order, no pump starts, and no terminal changes its id.
  abbrev pub Moves : Session → Session → Type 0
  Moves s t =
      (Ordered s.sent → Ordered t.sent)
      × ((id : ℕ) → Known s id → Known t id)
      × (s.opened ≤ t.opened)
      × ((k : ℕ) → k < s.opened → (t.terminals k).number ≡ (s.terminals k).number)
      × ((k : ℕ) → (t.terminals k).pumps_output ≡ true → (s.terminals k).pumps_output ≡ true)

  -- Nor does a call go on.
  abbrev pub Grows : Session → Session → Type 0
  Grows s t = (t.works ≡ s.works) × Moves s t

  -- For any session that differs from `s` in fields that `Grows` does not read.
  pub Grows-refl : (s : Session) → Grows s s
  Grows-refl s = (refl, ((λ h. h), (λ id h. h), omega arith, (λ k h. refl), λ k h. h))

  pub Grows-trans : (s t u : Session) → Grows s t → Grows t u → Grows s u
  Grows-trans s t u (e, g) (f, h) = (
    f ∙ e,
    (
      λ o. h.0 (g.0 o),
      λ id o. h.1 id (g.1 id o),
      omega (arith, g.2, h.2),
      λ k below. h.3 k (omega (arith, below, g.2)) ∙ g.3 k below,
      λ k on. g.4 k (h.4 k on),
    ),
  )

  abbrev is_frame : Sent → Bool
  is_frame (frame_sent id bytes) = true
  is_frame _ = false

  Ordered-cons :
      (m : Sent) (older : List Sent) → is_frame m ≡ false → Ordered older → Ordered (m ∷ older)
  Ordered-cons (frame_sent id bytes) older h o = absurd (cc)
  Ordered-cons (ping_sent n) older h o = o
  Ordered-cons (progress_sent id step) older h o = o
  Ordered-cons (result_sent r) older h o = o
  Ordered-cons (stream_closed_sent id) older h o = o

  Known-sent :
      (s : Session) (m : Sent) (id : ℕ) → Known s id → Known (record s { sent = m ∷ s.sent }) id
  Known-sent s m id (inl h) = inl h
  Known-sent s m id (inr h) = inr (inr h)

  -- A message whose place in the log is right.
  pub put-Grows :
      (writes : Bool) (m : Sent) (s : Session)
      → (s.broken ≡ false → Ordered s.sent → Ordered (m ∷ s.sent))
      → Grows s (send writes m s)
  unfolding write
  put-Grows true m s fits = put s.broken refl
    where
      put : (b : Bool) → s.broken ≡ b → Grows s ((written b m s).1)
      put true e = Grows-refl s
      put false e = (refl, (fits e, Known-sent s m, omega arith, λ k h. refl, λ k h. h))
  put-Grows false m s fits = (refl, (λ h. h, λ id h. inl refl, omega arith, λ k h. refl, λ k h. h))

  pub send-Known :
      (writes : Bool) (m : Sent) (s : Session) (id : ℕ)
      → Announces m id
      → Known (send writes m s) id
  unfolding write
  send-Known true m s id h = put s.broken refl
    where
      put : (b : Bool) → s.broken ≡ b → Known ((written b m s).1) id
      put true e = inl e
      put false e = inr (inl h)
  send-Known false m s id h = inl refl

  pub send-Grows :
      (writes : Bool) (m : Sent) (s : Session) → is_frame m ≡ false → Grows s (send writes m s)
  send-Grows writes m s plain = put-Grows writes m s (λ e. Ordered-cons m s.sent plain)
