-- ===== src/Docker/Planned.antt =====
-- What a plan for daemon.json asks for.
use mathlib.Core.Path.{subst}
use cnftctl.Base.{
  [], ◌∷◌, Bool, true, false, Option, none, some, Text, eqb, eqb_iff, eqb_refl, is_empty, ok,
  ok-injective, >>=-eq-ok, ◌≡◌, ◌≢◌, ◌⊎◌, refl, sym, ap, ◌∙◌, inl, inr, Bool-cases,
}
use cnftctl.Docker.{
  Value, Object, Json, backend_key, nftables, DaemonConfig, EditPlan, Backend, look_up, put,
  backend_of, firewall_backend, decoded, daemon_path, inspect, edited, plan_backend,
  plan_nftables_backend,
}

look_up-put : (k : Text) (v : Value) (o : Object) → look_up k (put k v o) ≡ some v
unfolding look_up put
look_up-put k v [] = rw (eqb_refl k) refl
look_up-put k v ((q, w) ∷ o) = elim (Bool-cases (eqb q k)) [
  | inl same ↦ rw same (rw same refl)
  | inr other ↦ rw other (rw other (look_up-put k v o))
]

differs : (a b : Text) → b ≢ a → eqb a b ≡ false
differs a b n = elim (Bool-cases (eqb a b)) [
  | inl same ↦ absurd (n (sym ((eqb_iff a b).0 same)))
  | inr other ↦ other
]

look_up-put_other :
    (k f : Text) (v : Value) (o : Object) → f ≢ k → look_up f (put k v o) ≡ look_up f o
unfolding look_up put
look_up-put_other k f v [] n = rw (differs k f n) refl
look_up-put_other k f v ((q, w) ∷ o) n = elim (Bool-cases (eqb q k)) [
  | inl same ↦ rw (same, (eqb_iff q k).0 same, differs k f n) refl
  | inr other ↦ rw (other, look_up-put_other k f v o n) refl
]

-- The plan is for the path, and for the document that was given.
pub record IsFor (path before : Text) (exists : Bool) (p : EditPlan) : Type 0 where
  pub on_path : p.path ≡ daemon_path path
  pub of_text : p.before ≡ before
  pub if_there : p.before_exists ≡ exists

module _ (j : Json) where
  -- Nothing, or what a document was decoded to.
  abbrev pub IsDocument : Object → Type 0
  IsDocument o = (o ≡ []) ⊎ ((text : Text) × (j.decode text ≡ some (some o)))

  -- The object is written as a document with the same value at every key, in whatever order.
  abbrev pub IsKept : Object → Type 0
  IsKept o =
      (back : Object) × (j.decode (j.encode o) ≡ some (some back))
      × ((k : Text) → look_up k back ≡ look_up k o)

  -- The document that a plan leaves in place asks for nftables, and has every other key as before.
  pub record IsEdit (cfg : DaemonConfig) (p : EditPlan) : Type 0 where
    pub after : DaemonConfig
    pub read : inspect j p.path p.after ≡ ok after
    pub backend : firewall_backend after ≡ Backend.named nftables
    pub others : (k : Text) → k ≢ backend_key → look_up k after.values ≡ look_up k cfg.values

  module _ (law : (o : Object) → IsDocument o → IsKept (put backend_key (Value.string nftables) o))
      (full : (o : Object) → is_empty (j.encode o) ≡ false) where
    read_back :
        (path : Text) (o back : Object)
        → j.decode (j.encode o) ≡ some (some back)
        → inspect j path (j.encode o) ≡ ok (record { path = daemon_path path; values = back })
    unfolding inspect
    read_back path o back h = rw (full o, h) refl

    names_nftables :
        (path : Text) (o : Object)
        → look_up backend_key o ≡ some (Value.string nftables)
        → firewall_backend (record { path = path; values = o }) ≡ Backend.named nftables
    unfolding firewall_backend backend_of
    names_nftables path o h = rw h refl

    edit :
        (cfg : DaemonConfig) (before : Text) (exists : Bool) (stamp : Text)
        → IsDocument cfg.values
        → IsEdit cfg (edited j cfg before exists stamp)
    edit cfg before exists stamp d =
        let v = Value.string nftables in
        let o = put backend_key v cfg.values in
        let (back, decoded, same) = law cfg.values d in
        record {
          after = record { path = daemon_path cfg.path; values = back };
          read = read_back cfg.path o back decoded;
          backend =
              names_nftables (daemon_path cfg.path) back
                (same backend_key ∙ look_up-put backend_key v cfg.values);
          others = λ k n. same k ∙ look_up-put_other backend_key k v cfg.values n;
        }

    decoded-IsDocument :
        (path text : Text) (r : Option (Option Object)) {cfg : DaemonConfig}
        → j.decode text ≡ r
        → decoded path r ≡ ok cfg
        → IsDocument cfg.values
    decoded-IsDocument path text none same h = absurd (cc)
    decoded-IsDocument path text (some none) same h =
        subst (λ c. IsDocument c.values) (ok-injective h) (inl refl)
    decoded-IsDocument path text (some (some o)) same h =
        subst (λ c. IsDocument c.values) (ok-injective h) (inr (text, same))

    inspect-IsDocument :
        (path text : Text) {cfg : DaemonConfig}
        → inspect j path text ≡ ok cfg
        → IsDocument cfg.values
    unfolding inspect
    inspect-IsDocument path text h = elim (Bool-cases (is_empty text)) [
      | inl blank ↦ subst (λ c. IsDocument c.values) (ok-injective (rw blank at h)) (inl refl)
      | inr filled ↦
          decoded-IsDocument (daemon_path path) text (j.decode text) refl (rw filled at h)
    ]

    -- A plan changes nothing and the backend is nftables already, or it is an edit.
    abbrev pub IsPlan : DaemonConfig → EditPlan → Type 0
    IsPlan cfg p =
        ((p.changed ≡ false) × (firewall_backend cfg ≡ Backend.named nftables))
        ⊎ ((p.changed ≡ true) × IsEdit cfg p)

    planned :
        (cfg : DaemonConfig) (before : Text) (exists : Bool) (stamp : Text) (b : Backend)
        → firewall_backend cfg ≡ b
        → IsDocument cfg.values
        → {p : EditPlan} → plan_backend j cfg before exists stamp b ≡ ok p
        → IsPlan cfg p
    unfolding plan_backend
    planned cfg before exists stamp Backend.invalid same d h = absurd (cc)
    planned cfg before exists stamp Backend.absent same d {p} h =
        subst (IsPlan cfg) (ok-injective h) (inr (refl, edit cfg before exists stamp d))
    planned cfg before exists stamp (Backend.named s) same d {p} h =
        elim (Bool-cases (eqb s nftables)) [
          | inl already ↦
              subst (IsPlan cfg) (ok-injective (rw already at h))
                (inl (refl, same ∙ ap Backend.named ((eqb_iff s nftables).0 already)))
          | inr different ↦ elim (Bool-cases (is_empty s)) [
            | inl blank ↦ absurd (cc (rw (different, blank) at h))
            | inr filled ↦
                subst (IsPlan cfg) (ok-injective (rw (different, filled) at h))
                  (inr (refl, edit cfg before exists stamp d))
          ]
        ]

    -- Where an object that was read, with the backend set in it, is written as a document that is not
    -- empty and that reads back with the same value at every key, a plan changes nothing and the
    -- backend is nftables already, or the document that it plans names nftables as the backend and
    -- has every other key as the one before.
    pub plan_nftables_backend-IsPlan :
        (path before : Text) (exists : Bool) (stamp : Text) {p : EditPlan}
        → plan_nftables_backend j path before exists stamp ≡ ok p
        → (cfg : DaemonConfig) × (inspect j path before ≡ ok cfg) × IsPlan cfg p
    unfolding plan_nftables_backend
    plan_nftables_backend-IsPlan path before exists stamp h =
        let (cfg, known, rest) = >>=-eq-ok (inspect j path before) _ h in
        (
          cfg,
          known,
          planned cfg before exists stamp (firewall_backend cfg) refl
              (inspect-IsDocument path before known) rest,
        )

  decoded-path :
      (path : Text) (r : Option (Option Object)) {cfg : DaemonConfig}
      → decoded path r ≡ ok cfg
      → cfg.path ≡ path
  decoded-path path none h = absurd (cc)
  decoded-path path (some none) h = ap (λ c. c.path) (sym (ok-injective h))
  decoded-path path (some (some o)) h = ap (λ c. c.path) (sym (ok-injective h))

  inspect-path :
      (path text : Text) {cfg : DaemonConfig}
      → inspect j path text ≡ ok cfg
      → cfg.path ≡ daemon_path path
  unfolding inspect
  inspect-path path text h = elim (Bool-cases (is_empty text)) [
    | inl blank ↦ ap (λ c. c.path) (sym (ok-injective (rw blank at h)))
    | inr filled ↦ decoded-path (daemon_path path) (j.decode text) (rw filled at h)
  ]

  plan_backend-IsFor :
      (cfg : DaemonConfig) (path before : Text) (exists : Bool) (stamp : Text) (b : Backend)
      → cfg.path ≡ daemon_path path
      → {p : EditPlan} → plan_backend j cfg before exists stamp b ≡ ok p
      → IsFor path before exists p
  unfolding plan_backend
  plan_backend-IsFor cfg path before exists stamp Backend.invalid at h = absurd (cc)
  plan_backend-IsFor cfg path before exists stamp Backend.absent at h =
      subst (IsFor path before exists) (ok-injective h)
        (record { on_path = at; of_text = refl; if_there = refl })
  plan_backend-IsFor cfg path before exists stamp (Backend.named s) at h =
      elim (Bool-cases (eqb s nftables)) [
        | inl already ↦
            subst (IsFor path before exists) (ok-injective (rw already at h))
              (record { on_path = at; of_text = refl; if_there = refl })
        | inr different ↦ elim (Bool-cases (is_empty s)) [
          | inl blank ↦ absurd (cc (rw (different, blank) at h))
          | inr full ↦
              subst (IsFor path before exists) (ok-injective (rw (different, full) at h))
                (record { on_path = at; of_text = refl; if_there = refl })
        ]
      ]

  pub plan_nftables_backend-IsFor :
      (path before : Text) (exists : Bool) (stamp : Text) {p : EditPlan}
      → plan_nftables_backend j path before exists stamp ≡ ok p
      → IsFor path before exists p
  unfolding plan_nftables_backend
  plan_nftables_backend-IsFor path before exists stamp h =
      let (cfg, known, rest) = >>=-eq-ok (inspect j path before) _ h in
      plan_backend-IsFor cfg path before exists stamp (firewall_backend cfg)
        (inspect-path path before known) rest
