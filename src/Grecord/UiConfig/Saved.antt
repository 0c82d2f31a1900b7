-- ===== src/Grecord/UiConfig/Saved.antt =====
-- Settings that are saved and loaded: grecord/src/UiConfig.cpp.
use gambit_record.Common.{
  ℕ, ◌*◌, ◌≤◌, ap₂, Bool, true, false, if◌then◌else◌, ◌≡◌, ◌⊎◌, inl, inr, refl, sym, subst, arith,
}
use gambit_record.Grecord.UiConfig.Settings.{
  Float, IsFloat, Settings, SettingsFile, number, half, clamp, bounded, validated, parsed,
  load_settings, document_of, save_settings,
}
use gambit_record.Grecord.UiConfig.Screen.{Fine, bounded-Fine}

module _ {ℓ} {F : Type ℓ} (f : Float F) where
  -- What a check makes of a number: it is within the bounds, and what was within them is as it was.
  pub record Checked (low high v w : F) : Type ℓ where
    pub fine : Fine f low high w
    pub kept : (w ≡ v) ⊎ (Fine f low high v → ⊥)

  -- The switches of the first settings, and each of their numbers checked.
  pub record IsChecked (s t : Settings F) : Type ℓ where
    pub follow_gadmin : t.follow_gadmin ≡ s.follow_gadmin
    pub custom_position : t.custom_position ≡ s.custom_position
    pub scale : Checked (f.fraction 75 100) (number f 2) s.scale t.scale
    pub opacity : Checked (f.fraction 2 10) (number f 1) s.opacity t.opacity
    pub anchor_x : Checked (number f 0) (number f 1) s.anchor.x t.anchor.x
    pub anchor_y : Checked (number f 0) (number f 1) s.anchor.y t.anchor.y

module _ {ℓ} {F : Type ℓ} (f : Float F) (laws : IsFloat f) where
  bounded_again : (v low high fallback : F) → Fine f low high v → bounded f v low high fallback ≡ v
  unfolding bounded
  bounded_again v low high fallback h =
      subst (λ b. (if b then clamp f v low high else fallback) ≡ v) (sym h.finite)
        (subst (λ b. (if b then low else if f.lt high v then high else v) ≡ v) (sym h.above)
          (subst (λ b. (if b then high else v) ≡ v) (sym h.below) refl))

  kept_by :
      (v low high fallback : F) (a b c : Bool)
      → f.is_finite v ≡ a
      → f.lt v low ≡ b
      → f.lt high v ≡ c
      → (bounded f v low high fallback ≡ v) ⊎ (Fine f low high v → ⊥)
  kept_by v low high fallback true false false e h k =
      inl (bounded_again v low high fallback record { finite = e; above = h; below = k })
  kept_by v low high fallback false b c e h k = inr (λ g. ground (arith, e, g.finite))
  kept_by v low high fallback true true c e h k = inr (λ g. ground (arith, h, g.above))
  kept_by v low high fallback true false true e h k = inr (λ g. ground (arith, k, g.below))

  bounded-Checked :
      (v low high fallback : F)
      → f.is_finite low ≡ true
      → f.lt high low ≡ false
      → Fine f low high fallback
      → Checked f low high v (bounded f v low high fallback)
  bounded-Checked v low high fallback l order b = record {
    fine = bounded-Fine f laws v low high fallback l order b;
    kept = kept_by v low high fallback _ _ _ refl refl refl;
  }

  number-Fine :
      (low high a b : ℕ)
      → 1 ≤ b
      → low * b ≤ a
      → a ≤ high * b
      → Fine f (number f low) (number f high) (f.fraction a b)
  number-Fine low high a b d h k = record {
    finite = laws.fraction_finite a b d;
    above = laws.fraction_monotone a b low 1 d (omega arith) (omega (arith, h));
    below = laws.fraction_monotone high 1 a b (omega arith) d (omega (arith, k));
  }

  validated-IsChecked : (s : Settings F) → IsChecked f s (validated f s)
  unfolding validated
  validated-IsChecked s = record {
    follow_gadmin = refl;
    custom_position = refl;
    scale =
        bounded-Checked s.scale (f.fraction 75 100) (number f 2) (number f 1)
          (laws.fraction_finite 75 100 (omega arith))
          (laws.fraction_monotone 2 1 75 100 (omega arith) (omega arith) (omega arith))
          (record {
            finite = laws.fraction_finite 1 1 (omega arith);
            above = laws.fraction_monotone 1 1 75 100 (omega arith) (omega arith) (omega arith);
            below = laws.fraction_monotone 2 1 1 1 (omega arith) (omega arith) (omega arith);
          });
    opacity =
        bounded-Checked s.opacity (f.fraction 2 10) (number f 1) (f.fraction 76 100)
          (laws.fraction_finite 2 10 (omega arith))
          (laws.fraction_monotone 1 1 2 10 (omega arith) (omega arith) (omega arith))
          (record {
            finite = laws.fraction_finite 76 100 (omega arith);
            above = laws.fraction_monotone 76 100 2 10 (omega arith) (omega arith) (omega arith);
            below = laws.fraction_monotone 1 1 76 100 (omega arith) (omega arith) (omega arith);
          });
    anchor_x =
        bounded-Checked s.anchor.x (number f 0) (number f 1) (half f)
          (laws.fraction_finite 0 1 (omega arith))
          (laws.fraction_monotone 1 1 0 1 (omega arith) (omega arith) (omega arith))
          (number-Fine 0 1 1 2 (omega arith) (omega arith) (omega arith));
    anchor_y =
        bounded-Checked s.anchor.y (number f 0) (number f 1) (number f 1)
          (laws.fraction_finite 0 1 (omega arith))
          (laws.fraction_monotone 1 1 0 1 (omega arith) (omega arith) (omega arith))
          (number-Fine 0 1 1 1 (omega arith) (omega arith) (omega arith));
  }

  validated_idem : (s : Settings F) → validated f (validated f s) ≡ validated f s
  unfolding validated
  validated_idem s =
      let c = validated-IsChecked s in
      ap₂
        (λ (p : F × F) (q : F × F). record s {
          scale = p.0;
          opacity = p.1;
          anchor = record { x = q.0; y = q.1 };
        })
        (ap₂ (λ (a b : F). (a, b)) (bounded_again _ _ _ _ c.scale.fine)
          (bounded_again _ _ _ _ c.opacity.fine))
        (ap₂ (λ (a b : F). (a, b)) (bounded_again _ _ _ _ c.anchor_x.fine)
          (bounded_again _ _ _ _ c.anchor_y.fine))

  -- Settings that are saved, where the file is written and moved, are loaded without an error: with
  -- the same switches, each number finite and within its bounds, and as it was where it was so before.
  pub load_settings-IsChecked :
      (s : Settings F) (before : SettingsFile F)
      → (let r = load_settings f (save_settings f true true s before).0 in
          IsChecked f s r.0 × (r.1 ≡ true))
  unfolding load_settings save_settings parsed document_of
  load_settings-IsChecked s before =
      (subst (IsChecked f s) (sym (validated_idem s)) (validated-IsChecked s), refl)
