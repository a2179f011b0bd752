-- ===== src/KeyValue/Variables.antt =====
-- Items that are a variable of a module: src/keyvalue.c.
use sapphire_os.Prelude.{
  ltb, leb, update, bit, length, split_at-whole, take, drop, Returns-bind, Returns-mono, Returns,
  pos, ok, returns, ℕ, zero, suc, ◌+◌, ◌≤◌, ◌<◌, ◌≡◌, refl, sym, ap, ap₂, ◌∙◌, ◌≢◌, ◌⊎◌, inl, false,
  ◌&&◌, none, some, List, [], ◌∷◌, ◌++◌, arith,
}
use sapphire_os.Types.{type_size}
use sapphire_os.KeyValue.{
  KvMeta, File, KeyValues, item, search_table, read_only_digit, persist_digit, group_app_base,
}
use sapphire_os.KeyValue.Items.{
  read_vars, write_vars, overlay, call_handler, internal_set, internal_get, kv_set, kv_get,
}
use sapphire_os.KeyValue.Lookup.{Indexed, lookup_meta-Looked}

write_vars-outside :
    (address c : ℕ) (bs : List ℕ) (vars : ℕ → ℕ)
    → (c < address) ⊎ (address + length bs ≤ c)
    → write_vars address bs vars c ≡ vars c
write_vars-outside address c [] vars out = refl
write_vars-outside address c (b ∷ bs) vars out =
    write_vars-outside (address + 1) c bs (update vars address b) (ground arith) ∙ ground arith

read_vars-write_vars :
    (address : ℕ) (bs : List ℕ) (vars : ℕ → ℕ)
    → read_vars (write_vars address bs vars) address (length bs) ≡ bs
read_vars-write_vars address [] vars = refl
read_vars-write_vars address (b ∷ bs) vars =
    ap₂ (λ x xs. x ∷ xs)
      (write_vars-outside (address + 1) address bs (update vars address b) (inl (omega arith))
        ∙ ground arith)
      (read_vars-write_vars (address + 1) bs (update vars address b))

length-read_vars : (vars : ℕ → ℕ) (address n : ℕ) → length (read_vars vars address n) ≡ n
length-read_vars vars address zero = refl
length-read_vars vars address (suc n) = omega (arith, length-read_vars vars (address + 1) n)

drop-all : (n : ℕ) (bs : List ℕ) → length bs ≤ n → drop n bs ≡ []
drop-all zero [] l = refl
drop-all zero (b ∷ bs) l = absurd (omega arith)
drop-all (suc n) [] l = refl
drop-all (suc n) (b ∷ bs) l = drop-all n bs (omega arith)

append-nil : (bs : List ℕ) → bs ++ [] ≡ bs
append-nil [] = refl
append-nil (b ∷ bs) = ap (λ xs. b ∷ xs) (append-nil bs)

overlay-whole :
    (bytes buffer : List ℕ) → length buffer ≤ length bytes → overlay bytes buffer ≡ bytes
overlay-whole bytes buffer l =
    ap (λ xs. bytes ++ xs) (drop-all (length bytes) buffer l) ∙ append-nil bytes

take-whole : (bs : List ℕ) → take (length bs) bs ≡ bs
take-whole [] = refl
take-whole (b ∷ bs) = ap (λ xs. b ∷ xs) (take-whole bs)

module _ {S F : Type 0} (fs : File F) (table : List (KvMeta S)) where
  -- an item that is a variable only, which may be set now
  pub record IsVariable (meta : KvMeta S) (address : ℕ) : Type 0 where
    pub at_address : meta.ptr ≡ some address
    pub no_handler : meta.handler ≡ none
    pub writable : bit meta.flags read_only_digit ≡ 0
    pub in_memory : bit meta.flags persist_digit ≡ 0

  internal_set-variable :
      (fuel address : ℕ) (stack value : List ℕ) (meta : KvMeta S) (s : KeyValues S F)
      → IsVariable meta address
      → (s.safe_mode && leb group_app_base meta.group) ≡ false
      → length value ≡ type_size meta.type
      → internal_set fs fuel stack meta value (length value) s
        ≡ ok (pos 0, record s { vars = write_vars address value s.vars })
  unfolding internal_set call_handler
  internal_set-variable fuel address stack value meta s v safe size =
      let not_both : ltb (length value) (type_size meta.type) ≡ false = ground (arith, size) in
      rw
        (
          internal_set,
          safe,
          v.writable,
          not_both,
          ← size,
          split_at-whole value,
          v.in_memory,
          v.at_address,
          v.no_handler,
        )
        refl

  internal_get-variable :
      (fuel address : ℕ) (buffer : List ℕ) (meta : KvMeta S) (s : KeyValues S F)
      → IsVariable meta address
      → (s.safe_mode && leb group_app_base meta.group) ≡ false
      → length buffer ≡ type_size meta.type
      → Returns
          (λ (status, bytes, t).
            (status ≡ pos 0) × (bytes ≡ read_vars s.vars address (type_size meta.type)) × (t ≡ s))
          (internal_get fs fuel meta buffer (type_size meta.type) s)
  unfolding internal_get call_handler
  internal_get-variable fuel address buffer meta s v safe size =
      let n = type_size meta.type in
      let r = read_vars s.vars address n in
      let sized : length r ≡ n = length-read_vars s.vars address n in
      let shown : overlay r buffer ≡ r = overlay-whole r buffer (omega (arith, sized, size)) in
      let cut : take n (overlay r buffer) ≡ r =
        ap (λ xs. take n xs) shown ∙ ap (λ k. take k r) (sym sized) ∙ take-whole r in
      let enough : ltb (type_size meta.type) (type_size meta.type) ≡ false = ground arith in
      rw (internal_get, safe, enough, v.in_memory, v.at_address, v.no_handler)
        (returns
          (refl, ap₂ (λ xs ys. overlay xs ys) cut shown ∙ overlay-whole r r (omega arith), refl))

  kv_get-variable :
      (fuel group id place address : ℕ) (buffer : List ℕ) (meta : KvMeta S) (s : KeyValues S F)
      → search_table table 0 group id ≡ item place meta
      → IsVariable meta address
      → (s.safe_mode && leb group_app_base meta.group) ≡ false
      → length buffer ≡ type_size meta.type
      → (group ≢ 255) ⊎ (id ≢ 255)
      → Indexed table s
      → Returns
          (λ (result, bytes, u).
            (result ≡ pos 0) × (bytes ≡ read_vars s.vars address (type_size meta.type)))
          (kv_get fs table fuel group id buffer (type_size meta.type) s)
  unfolding kv_get
  kv_get-variable fuel group id place address buffer meta s found v safe room used indexed =
      Returns-bind (lookup_meta-Looked table group id s used indexed)
        λ (first, t) (is, indexed', same).
          rw (is, found)
            (Returns-mono
              (internal_get-variable fuel address buffer meta t v (rw same.safe_mode safe) room)
              λ (status, bytes, u) (fine, read, kept).
                (fine, read ∙ ap (λ f. read_vars f address (type_size meta.type)) same.vars))

  -- An item that is a variable only is read as it was set, whatever searches came before, and no
  -- other byte of memory changes.
  pub kv_get-kv_set :
      (fuel group id place address : ℕ) (stack value buffer : List ℕ) (meta : KvMeta S)
      (s : KeyValues S F)
      → search_table table 0 group id ≡ item place meta
      → IsVariable meta address
      → (s.safe_mode && leb group_app_base meta.group) ≡ false
      → length value ≡ type_size meta.type
      → length buffer ≡ type_size meta.type
      → (group ≢ 255) ⊎ (id ≢ 255)
      → Indexed table s
      → Returns
          (λ (status, t).
            (status ≡ pos 0)
            × ((c : ℕ) → (c < address) ⊎ (address + length value ≤ c) → t.vars c ≡ s.vars c)
            × Returns
                (λ (result, bytes, u). (result ≡ pos 0) × (bytes ≡ value))
                (kv_get fs table fuel group id buffer (length value) t))
          (kv_set fs table fuel stack group id value (length value) s)
  unfolding kv_set
  kv_get-kv_set fuel group id place address stack value buffer meta s found v safe size room used
        indexed =
      Returns-bind (lookup_meta-Looked table group id s used indexed)
        λ (first, t) (is, indexed', same).
          let safe' : (t.safe_mode && leb group_app_base meta.group) ≡ false =
            rw same.safe_mode safe in
          rw (is, found, internal_set-variable fuel address stack value meta t v safe' size)
            (returns (
              refl,
              λ c out. write_vars-outside address c value t.vars out ∙ ap (λ f. f c) same.vars,
              rw size (
                  Returns-mono
                    (kv_get-variable fuel group id place address buffer meta
                      (record t { vars = write_vars address value t.vars }) found v safe' room used
                      (record { entries = indexed'.entries; inserts = indexed'.inserts }))
                    λ (result, bytes, u) (fine, read). (
                      fine,
                      read
                          ∙ ap (λ n. read_vars (write_vars address value t.vars) address n)
                              (sym size)
                          ∙ read_vars-write_vars address value t.vars,
                    )),
            ))
