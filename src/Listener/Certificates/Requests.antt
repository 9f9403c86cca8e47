-- ===== src/Listener/Certificates/Requests.antt =====
-- internal/server/tls.go: the certificates over any sequence of handshakes.
use mathlib.Core.Path.{subst}
use haigosmart.Base.{
  ℕ, ◌+◌, ◌≡◌, refl, sym, ap, ◌∙◌, ◌⊎◌, inl, inr, List, [], ◌∷◌, Bool, Option, none, some, arith,
  Result, ok, err, Bool-cases, Option-cases, Result-cases,
}
use haigosmart.Base.Text.{Str, str_eq, str_eq_iff, str_eq_refl}
use haigosmart.Base.Assoc
use haigosmart.Base.Assoc.{Map, get-put}
use haigosmart.Listener.Certificates.{
  Crypto, Certificate, CertSource, CertError, generating_serial, creating_certificate,
  new_cert_source, generate, load_key, issue, template_for, certificate_for, requests,
}

module _ {Key Der : Type 0} (crypto : Crypto Key Der) where
  -- A source whose certificates are all made with its key.
  abbrev pub OwnKey : Option Key → Map (Certificate Key Der) → Type 0
  OwnKey key [] = Unit {0}
  OwnKey key ((name, cert) ∷ certs) = (key ≡ some cert.private_key) × OwnKey key certs

  OwnKey-put :
      (key : Key) (name : Str) (cert : Certificate Key Der) (certs : Map (Certificate Key Der))
      → cert.private_key ≡ key
      → OwnKey (some key) certs
      → OwnKey (some key) (Assoc.put certs name cert)
  unfolding Assoc.put
  OwnKey-put key name cert [] own h = (ap some (sym own), tt)
  OwnKey-put key name cert ((n, c) ∷ cs) own (h, hs) = elim (Bool-cases (str_eq n name)) [
    | inl e ↦ rw e (ap some (sym own), hs)
    | inr e ↦ rw e (h, OwnKey-put key name cert cs own hs)
  ]

  certificate_for-cached :
      (writable : Bool) (name : Str) (now : ℕ) (c : CertSource Key Der) (cert : Certificate Key Der)
      → Assoc.get c.certs name ≡ some cert
      → certificate_for crypto writable name now c ≡ (c, ok cert)
  unfolding certificate_for
  certificate_for-cached writable name now c cert held = rw (certificate_for, held) refl

  load_key_keeps :
      (writable : Bool) (c : CertSource Key Der) → (load_key crypto writable c).0.certs ≡ c.certs
  unfolding load_key generate
  load_key_keeps writable c = ground arith

  issue_cases :
      (name : Str) (now : ℕ) (k : Key) (c : CertSource Key Der)
      → (((issue crypto name now k c).0.certs ≡ c.certs)
          × ((e : CertError) × ((issue crypto name now k c).1 ≡ err e)))
        ⊎ ((cert : Certificate Key Der) × ((issue crypto name now k c).0.certs
              ≡ Assoc.put c.certs name cert)
            × (cert.private_key ≡ k)
            × ((issue crypto name now k c).1 ≡ ok cert))
  unfolding issue
  issue_cases name now k c = elim (Option-cases (crypto.random_serial c.draws)) [
    | inl e ↦ inl (rw (issue, e) refl, (generating_serial, rw (issue, e) refl))
    | inr (serial, e) ↦
        elim (Option-cases
          (crypto.create_certificate (c.draws + 1) (template_for crypto name serial now) k)) [
            | inl f ↦
                inl (rw (issue, e, f) refl, (creating_certificate name, rw (issue, e, f) refl))
            | inr (der, f) ↦ inr (
              record { der = der; private_key = k },
              rw (issue, e, f) refl,
              refl,
              rw (issue, e, f) refl,
            )
          ]
  ]

  issue_key :
      (name : Str) (now : ℕ) (k : Key) (c : CertSource Key Der)
      → (issue crypto name now k c).0.key ≡ c.key
  unfolding issue
  issue_key name now k c = ground arith

  load_key_key :
      (writable : Bool) (c : CertSource Key Der) (k : Key)
      → (load_key crypto writable c).1 ≡ ok k
      → (load_key crypto writable c).0.key ≡ some k
  unfolding load_key generate
  load_key_key writable c k done = ground arith

  OwnKey-none :
      (key : Option Key) (certs : Map (Certificate Key Der)) → OwnKey none certs → OwnKey key certs
  OwnKey-none key [] h = tt
  OwnKey-none key ((name, cert) ∷ certs) (h, hs) = absurd (cc)

  load_key-OwnKey :
      (writable : Bool) (c : CertSource Key Der)
      → OwnKey c.key c.certs
      → OwnKey (load_key crypto writable c).0.key c.certs
  unfolding load_key
  load_key-OwnKey writable c h = elim (Option-cases c.key) [
    | inr (k, e) ↦
        let same : (load_key crypto writable c).0.key ≡ c.key = rw (load_key, e) e in
        subst (λ (o : Option Key). OwnKey o c.certs) (sym same) h
    | inl e ↦
        OwnKey-none (load_key crypto writable c).0.key c.certs
          (subst (λ (o : Option Key). OwnKey o c.certs) e h)
  ]

  certificate_for-OwnKey :
      (writable : Bool) (name : Str) (now : ℕ) (c : CertSource Key Der)
      → OwnKey c.key c.certs
      → OwnKey
          (certificate_for crypto writable name now c).0.key
          (certificate_for crypto writable name now c).0.certs
  unfolding certificate_for
  certificate_for-OwnKey writable name now c h = elim (Option-cases (Assoc.get c.certs name)) [
    | inr (cert, held) ↦ rw (certificate_for, held) h
    | inl missing ↦ elim (Result-cases (load_key crypto writable c).1) [
      | inr (e, failed) ↦
          rw (certificate_for, missing, failed, load_key_keeps writable c)
            (load_key-OwnKey writable c h)
      | inl (k, loaded) ↦
          let source = (load_key crypto writable c).0 in
          let key : source.key ≡ some k = load_key_key writable c k loaded in
          let own : OwnKey (some k) source.certs =
            subst (λ (o : Option Key). OwnKey o source.certs) key
              (subst (OwnKey source.key) (sym (load_key_keeps writable c))
                (load_key-OwnKey writable c h)) in
          let after : OwnKey (issue crypto name now k source).0.key
              (issue crypto name now k source).0.certs =
            subst (λ (o : Option Key). OwnKey o (issue crypto name now k source).0.certs)
              (sym (issue_key name now k source ∙ key))
              (elim (issue_cases name now k source) [
                | inl (same, failed) ↦ subst (OwnKey (some k)) (sym same) own
                | inr (cert, put, of_key, done) ↦
                    subst (OwnKey (some k)) (sym put)
                      (OwnKey-put k name cert source.certs of_key own)
              ]) in
          rw (certificate_for, missing, loaded) after
    ]
  ]

  requests_own :
      (rs : List (Bool × Str × ℕ)) (c : CertSource Key Der)
      → OwnKey c.key c.certs
      → OwnKey (requests crypto rs c).key (requests crypto rs c).certs
  unfolding requests
  requests_own [] c h = h
  requests_own ((writable, name, now) ∷ rest) c h =
      requests_own rest (certificate_for crypto writable name now c).0
        (certificate_for-OwnKey writable name now c h)

  certificate_for-held :
      (writable : Bool) (other name : Str) (now : ℕ) (c : CertSource Key Der)
      (cert : Certificate Key Der)
      → Assoc.get c.certs name ≡ some cert
      → Assoc.get (certificate_for crypto writable other now c).0.certs name ≡ some cert
  unfolding certificate_for
  certificate_for-held writable other name now c cert held =
      elim (Option-cases (Assoc.get c.certs other)) [
        | inr (found, e) ↦ rw (certificate_for, e) held
        | inl missing ↦
            let source = (load_key crypto writable c).0 in
            let still : Assoc.get source.certs name ≡ some cert =
              ap (λ (m : Map (Certificate Key Der)). Assoc.get m name) (load_key_keeps writable c)
              ∙ held in
            elim (Result-cases (load_key crypto writable c).1) [
              | inr (e, failed) ↦ rw (certificate_for, missing, failed) still
              | inl (k, loaded) ↦
                  rw (certificate_for, missing, loaded)
                    (elim (issue_cases other now k source) [
                      | inl (same, failed) ↦
                          ap (λ (m : Map (Certificate Key Der)). Assoc.get m name) same ∙ still
                      | inr (new, put, of_key, done) ↦
                          ap (λ (m : Map (Certificate Key Der)). Assoc.get m name) put
                          ∙ (get-put source.certs other name new
                              ∙ elim (Bool-cases (str_eq other name)) [
                                | inr e ↦ rw e still
                                | inl e ↦
                                    let wrong : none ≡ some cert =
                                      sym missing
                                      ∙ (ap (Assoc.get c.certs) ((str_eq_iff other name).0 e)
                                          ∙ held) in
                                    absurd (cc)
                              ])
                    ])
            ]
      ]

  certificate_for_holds :
      (writable : Bool) (name : Str) (now : ℕ) (c : CertSource Key Der) (cert : Certificate Key Der)
      → (certificate_for crypto writable name now c).1 ≡ ok cert
      → Assoc.get (certificate_for crypto writable name now c).0.certs name ≡ some cert
  unfolding certificate_for
  certificate_for_holds writable name now c cert done =
      elim (Option-cases (Assoc.get c.certs name)) [
        | inr (found, e) ↦
            let same : ◌≡◌ {A = Result CertError (Certificate Key Der)} (ok found) (ok cert) =
              rw (certificate_for, e) at done in
            let eq : found ≡ cert = cc in rw (certificate_for, e) (e ∙ ap some eq)
        | inl missing ↦ elim (Result-cases (load_key crypto writable c).1) [
          | inr (e, failed) ↦
              let wrong : ◌≡◌ {A = Result CertError (Certificate Key Der)} (err e) (ok cert) =
                rw (certificate_for, missing, failed) at done in
              absurd (cc)
          | inl (k, loaded) ↦
              let source = (load_key crypto writable c).0 in
              let issued : (issue crypto name now k source).1 ≡ ok cert =
                rw (certificate_for, missing, loaded) at done in
              elim (issue_cases name now k source) [
                | inl (same, (e, failed)) ↦
                    let wrong : ◌≡◌ {A = Result CertError (Certificate Key Der)} (err e) (ok cert) =
                      sym failed ∙ issued in
                    absurd (cc)
                | inr (new, put, of_key, made) ↦
                    let same : ◌≡◌ {A = Result CertError (Certificate Key Der)} (ok new) (ok cert) =
                      sym made ∙ issued in
                    let eq : some new ≡ some cert = cc in
                    rw (certificate_for, missing, loaded)
                      (ap (λ (m : Map (Certificate Key Der)). Assoc.get m name) put
                        ∙ (get-put source.certs name name new ∙ rw (str_eq_refl name) eq))
              ]
        ]
      ]

  -- Over any sequence of handshakes, whatever fails in between, every certificate that is kept is made
  -- with the one key of the source.
  pub requests-OwnKey :
      (path : Str) (file : Option (List ℕ)) (rs : List (Bool × Str × ℕ))
      → OwnKey
          (requests crypto rs (new_cert_source path file)).key
          (requests crypto rs (new_cert_source path file)).certs
  unfolding new_cert_source
  requests-OwnKey path file rs = requests_own rs (new_cert_source path file) tt

  requests-held :
      (rs : List (Bool × Str × ℕ)) (name : Str) (c : CertSource Key Der)
      (cert : Certificate Key Der)
      → Assoc.get c.certs name ≡ some cert
      → Assoc.get (requests crypto rs c).certs name ≡ some cert
  unfolding requests
  requests-held [] name c cert held = held
  requests-held ((writable, other, now) ∷ rest) name c cert held =
      requests-held rest name (certificate_for crypto writable other now c).0 cert
        (certificate_for-held writable other name now c cert held)

  -- Once a name has its certificate, every later handshake for the name is given the same one, at
  -- whatever time and after whatever handshakes, and nothing is drawn or written for it.
  pub certificate_for-requests :
      (writable : Bool) (name : Str) (now : ℕ) (c : CertSource Key Der) (cert : Certificate Key Der)
      → (certificate_for crypto writable name now c).1 ≡ ok cert
      → (rs : List (Bool × Str × ℕ)) (again : Bool) (later : ℕ)
      → certificate_for crypto again name later
          (requests crypto rs (certificate_for crypto writable name now c).0)
        ≡ (requests crypto rs (certificate_for crypto writable name now c).0, ok cert)
  certificate_for-requests writable name now c cert done rs again later =
      certificate_for-cached again name later
        (requests crypto rs (certificate_for crypto writable name now c).0) cert
        (requests-held rs name (certificate_for crypto writable name now c).0 cert
          (certificate_for_holds writable name now c cert done))
