-- ===== src/Redis/Stored.antt =====
-- About internal/adapter/redis/customer_cache.go: what the store holds for an id, live or not.
use crm_beginner.Base.Int.{ℤ, eq_ℤ, eq_ℤ_iff}
use crm_beginner.Base.{
  ℕ, ◌≡◌, refl, sym, ap, ◌∙◌, ◌⊎◌, inl, inr, Option, none, some, if◌then◌else◌, arith, Bool-cases,
  Option-cases,
}
use crm_beginner.Domain.{Customer}
use crm_beginner.Redis.{
  Codec, Store, Client, Handle, Context, key, run_get, run_set, run_del, get, set, invalidate,
}
use crm_beginner.Remote.{Link, up, refused, lost, exec, Applied}
use crm_beginner.Text.Decimal.{decimal_int-injective}
use crm_beginner.Text.Search.{equal_iff}
use crm_beginner.Text.{Bytes, equal}

key-injective : (a b : ℤ) → key a ≡ key b → a ≡ b
unfolding key
key-injective a b e = decimal_int-injective a b cc

-- Two ids have the same key only if they are the same.
equal-key : (a b : ℤ) → equal (key b) (key a) ≡ eq_ℤ a b
equal-key a b = elim (Bool-cases (eq_ℤ a b)) [
  | inl e ↦ rw e ((equal_iff (key b) (key a)).1 (sym (ap key ((eq_ℤ_iff a b).0 e))))
  | inr e ↦ elim (Bool-cases (equal (key b) (key a))) [
    | inl f ↦
        let same = key-injective a b (sym ((equal_iff (key b) (key a)).0 f)) in
        absurd (cc (e, (eq_ℤ_iff a b).1 same))
    | inr f ↦ f ∙ sym e
  ]
]

module _ (codec : Codec) where
  abbrev pub stored : Store → ℤ → Option Customer
  stored store id = elim (store (key id)) [ none ↦ none | some item ↦ codec.unmarshal item.value ]

  get_client :
      (link : Link) (ctx : Context) (client : Client) (id : ℤ) (store : Store) (c : Customer)
      → ctx.get_link ≡ link
      → get codec (some client) ctx id store ≡ some c
      → stored store id ≡ some c
  unfolding get run_get
  get_client link ctx client id store c e h = ground arith

  -- A hit was stored.
  get-stored :
      (handle : Handle) (ctx : Context) (id : ℤ) (store : Store) (c : Customer)
      → get codec handle ctx id store ≡ some c
      → stored store id ≡ some c
  unfolding get
  get-stored none ctx id store c h = cc
  get-stored (some client) ctx id store c h = get_client ctx.get_link ctx client id store c refl h

  run_set-stored :
      (now ttl : ℕ) (c : Customer) (value : Bytes) (store : Store) (j : ℤ)
      → codec.marshal c ≡ some value
      → stored (run_set now (key c.id) value ttl store).1 j
        ≡ (if eq_ℤ c.id j then some c else stored store j)
  unfolding run_set
  run_set-stored now ttl c value store j e =
      ground (arith, equal-key c.id j, codec.round_trip c value e)

  exec_set-stored :
      (link : Link) (now ttl : ℕ) (c : Customer) (value : Bytes) (store : Store) (j : ℤ)
      → codec.marshal c ≡ some value
      → (stored (exec link (run_set now (key c.id) value ttl) store).1 j ≡ stored store j)
        ⊎ (stored (exec link (run_set now (key c.id) value ttl) store).1 j
            ≡ (if eq_ℤ c.id j then some c else stored store j))
  exec_set-stored up now ttl c value store j e = inr (run_set-stored now ttl c value store j e)
  exec_set-stored (refused f) now ttl c value store j e = inl refl
  exec_set-stored (lost f) now ttl c value store j e =
      inr (run_set-stored now ttl c value store j e)

  -- `Set` stores the customer under its id, or nothing.
  set-stored :
      (handle : Handle) (ctx : Context) (c : Customer) (store : Store) (j : ℤ)
      → (stored (set codec handle ctx c store) j ≡ stored store j)
        ⊎ (stored (set codec handle ctx c store) j
            ≡ (if eq_ℤ c.id j then some c else stored store j))
  unfolding set
  set-stored none ctx c store j = inl refl
  set-stored (some client) ctx c store j = elim (Option-cases (codec.marshal c)) [
    | inl e ↦ rw (e, set) (inl refl)
    | inr (value, e) ↦
        rw (e, set) (exec_set-stored ctx.set_link ctx.now client.ttl c value store j e)
  ]

  run_del-stored :
      (id : ℤ) (store : Store) (j : ℤ)
      → stored (run_del (key id) store).1 j ≡ (if eq_ℤ id j then none else stored store j)
  unfolding run_del
  run_del-stored id store j = ground (arith, equal-key id j)

  exec_del-stored :
      (link : Link) (id : ℤ) (store : Store) (j : ℤ)
      → Applied link
      → stored (exec link (run_del (key id)) store).1 j
        ≡ (if eq_ℤ id j then none else stored store j)
  exec_del-stored up id store j a = run_del-stored id store j
  exec_del-stored (refused e) id store j a = absurd a
  exec_del-stored (lost e) id store j a = run_del-stored id store j

  -- `Invalidate` forgets one id and no other.
  invalidate-stored :
      (client : Client) (ctx : Context) (id : ℤ) (store : Store) (j : ℤ)
      → Applied ctx.del_link
      → stored (invalidate (some client) ctx id store) j
        ≡ (if eq_ℤ id j then none else stored store j)
  unfolding invalidate
  invalidate-stored client ctx id store j a = exec_del-stored ctx.del_link id store j a

  -- What a handle can ever return.
  abbrev pub held : Handle → Store → ℤ → Option Customer
  held none store id = none
  held (some client) store id = stored store id

  pub get-held :
      (handle : Handle) (ctx : Context) (id : ℤ) (store : Store) (c : Customer)
      → get codec handle ctx id store ≡ some c
      → held handle store id ≡ some c
  unfolding get
  get-held none ctx id store c h = cc
  get-held (some client) ctx id store c h = get-stored (some client) ctx id store c h

  pub set-held :
      (handle : Handle) (ctx : Context) (c : Customer) (store : Store) (j : ℤ)
      → (held handle (set codec handle ctx c store) j ≡ held handle store j)
        ⊎ (held handle (set codec handle ctx c store) j
            ≡ (if eq_ℤ c.id j then some c else held handle store j))
  set-held none ctx c store j = inl refl
  set-held (some client) ctx c store j = set-stored (some client) ctx c store j

  pub invalidate-held :
      (handle : Handle) (ctx : Context) (id : ℤ) (store : Store) (j : ℤ)
      → Applied ctx.del_link
      → held handle (invalidate handle ctx id store) j
        ≡ (if eq_ℤ id j then none else held handle store j)
  invalidate-held none ctx id store j a = ground arith
  invalidate-held (some client) ctx id store j a = invalidate-stored client ctx id store j a
