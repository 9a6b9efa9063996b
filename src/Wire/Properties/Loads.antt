-- ===== src/Wire/Properties/Loads.antt =====
-- A sequence of writes, and what the decoding loop makes of the bytes: one rule for each writer.
use sky_tree.Common.{
  ℕ, zero, suc, ◌≤◌, ◌≡◌, refl, subst, ap, sym, Bool, true, false, not, ◌&&◌, Option, none, some,
  List, [], ◌∷◌, ◌++◌, append-nil, append_assoc, arith, length, length-append, ◌⊎◌, inl, inr,
}
use sky_tree.Mqtt5.Prop
use sky_tree.Mqtt5.PacketTypes.{PacketType, publish, subscribe, will_properties}
use sky_tree.Mqtt5.Properties.{Bytes, User}
use sky_tree.Wire.Errors.{Result, ok, err, >>=-eq-ok}
use sky_tree.Wire.Properties.{
  PropertyValue, PropertyStruct, zero_value, decode_property, decode_loop, mem, mark,
}
use sky_tree.Wire.Properties.Append.{
  ◌⨾◌, append_opt, append_nonempty, append_user_properties, append_subscription_identifiers,
}
use sky_tree.Wire.Properties.Reads.{
  Reads, decode_property-Reads, append_user_property-Reads, append_prop_vbi-Reads,
}
use sky_tree.Wire.Properties.Spec.{
  PropertySpec, variable_byte_integer, mask, property_spec, packet_allowed, property_repeat_allowed,
}

-- What is in the set is in the bound.
abbrev pub Within : List ℕ → List ℕ → Type 0
Within seen bound = (id : ℕ) → mem id bound ≡ false → mem id seen ≡ false

Within-mark :
    (seen bound : List ℕ) (b : Bool) (x : ℕ)
    → Within seen bound
    → Within (mark b x seen) (x ∷ bound)
unfolding mem
Within-mark seen bound true x h id e = h id (ground arith)
Within-mark seen bound false x h id e = ground (arith, h id)

Within-cons : (seen bound : List ℕ) (x : ℕ) → Within seen bound → Within seen (x ∷ bound)
unfolding mem
Within-cons seen bound x h id e = h id (ground arith)

⨾_assoc : (a b c : Result Bytes) → (a ⨾ b) ⨾ c ≡ a ⨾ (b ⨾ c)
unfolding ◌⨾◌
⨾_assoc (ok x) (ok y) (ok z) = rw append_assoc
⨾_assoc (ok x) (ok y) (err e) = refl
⨾_assoc (ok x) (err e) c = refl
⨾_assoc (err e) b c = refl

ok-⨾ : (a : Result Bytes) → ok [] ⨾ a ≡ a
unfolding ◌⨾◌
ok-⨾ (ok x) = refl
ok-⨾ (err e) = refl

abbrev sub_spec : PropertySpec
sub_spec = record {
  id = Prop.subscription_identifier;
  name = "Subscription Identifier";
  type = variable_byte_integer;
  allowed = mask (publish ∷ subscribe ∷ []);
  repeats = false;
}

user-repeats :
    (packet : PacketType) (spec : PropertySpec)
    → property_spec Prop.user ≡ some spec
    → packet_allowed spec packet ≡ true
    → property_repeat_allowed spec packet ≡ true
unfolding property_spec property_repeat_allowed
user-repeats packet spec f a = ground arith

subscription_identifier-repeats :
    (packet : PacketType) (spec : PropertySpec)
    → (packet ≡ publish) ⊎ (packet ≡ will_properties)
    → property_spec Prop.subscription_identifier ≡ some spec
    → packet_allowed spec packet ≡ true
    → property_repeat_allowed spec packet ≡ true
unfolding property_spec property_repeat_allowed packet_allowed
subscription_identifier-repeats packet spec (inl e) f a = ground arith
subscription_identifier-repeats packet spec (inr e) f a =
    let same : sub_spec ≡ spec = cc in
    let allowed = subst (λ r. packet_allowed r packet ≡ true) (sym same) a in
    let no : packet_allowed sub_spec will_properties ≡ true =
      subst (λ p. packet_allowed sub_spec p ≡ true) e allowed in
    cc no

module _ {S : Type 0} ⦃struct : PropertyStruct S⦄ (packet : PacketType) where
  -- If the write succeeds, the loop over its bytes goes from `s` to `t`, with no singleton seen
  -- before but those of `bound`.
  pub record Loads (bound : List ℕ) (s : S) (w : Result Bytes) (t : S) : Type 0 where
    pub loads :
        (bs : Bytes) (seen : List ℕ) (rounds : ℕ)
        → w ≡ ok bs
        → Within seen bound
        → length bs ≤ rounds
        → decode_loop packet rounds seen s bs ≡ ok t

  pub Loads-nil : (bound : List ℕ) (s : S) → Loads bound s (ok []) s
  unfolding decode_loop
  Loads-nil bound s = record {
    loads = λ bs seen rounds e within h.
        let same : [] ≡ bs = cc in
        subst (λ cs. decode_loop packet rounds seen s cs ≡ ok s) same refl;
  }

  loop-round :
      (rounds id : ℕ) (body rest : Bytes) (seen seen' : List ℕ) (s s' t : S)
      → length ((id ∷ body) ++ rest) ≤ rounds
      → decode_property packet seen s ((id ∷ body) ++ rest) ≡ ok (seen', s', rest)
      → ((rounds' : ℕ) → length rest ≤ rounds' → decode_loop packet rounds' seen' s' rest ≡ ok t)
      → decode_loop packet rounds seen s ((id ∷ body) ++ rest) ≡ ok t
  unfolding decode_loop
  loop-round zero id body rest seen seen' s s' t h e next = absurd (omega arith)
  loop-round (suc rounds) id body rest seen seen' s s' t h e next =
      rw e (next rounds (omega (arith, length-append body rest)))

  -- A property in front, at a bound that allows it, and the bound for the rest.
  Loads-round :
      (bound bound' : List ℕ) (s t : S) (w w' : Result Bytes) (id : ℕ) (value : PropertyValue)
      → ((bs : Bytes) → w ≡ ok bs → Reads packet id value bs)
      → ((seen : List ℕ) (spec : PropertySpec)
          → property_spec id ≡ some spec
          → packet_allowed spec packet ≡ true
          → Within seen bound
          → ((not (property_repeat_allowed spec packet) && mem id seen) ≡ false)
            × Within (mark (property_repeat_allowed spec packet) id seen) bound')
      → Loads bound' (struct.assign s id value) w' t
      → Loads bound s (w ⨾ w') t
  unfolding ◌⨾◌
  Loads-round bound bound' s t w w' id value reads room rest = record {
    loads = λ bs seen rounds e within h.
        let (cs, e₁, e') = >>=-eq-ok w _ e in
        let (ds, e₂, e₃) = >>=-eq-ok w' _ e' in
        let r = reads cs e₁ in
        let rep = property_repeat_allowed r.spec packet in
        let (new, within') = room seen r.spec r.found r.allowed within in
        let same : (id ∷ r.body) ++ ds ≡ bs = cc (ap (λ xs. xs ++ ds) r.split) in
        let step = decode_property-Reads packet id value cs ds seen s r new in
        let step' =
          subst
            (λ xs.
              decode_property packet seen s (xs ++ ds)
              ≡ ok (mark rep id seen, struct.assign s id value, ds))
            r.split step in
        let fits = subst (λ xs. length xs ≤ rounds) (sym same) h in
        subst (λ xs. decode_loop packet rounds seen s xs ≡ ok t) same
          (loop-round rounds id r.body ds seen (mark rep id seen) s (struct.assign s id value) t
            fits step'
            (λ rounds' fits'. rest.loads ds (mark rep id seen) rounds' e₂ within' fits'));
  }

  pub Loads-cons :
      (bound : List ℕ) (s t : S) (w w' : Result Bytes) (id : ℕ) (value : PropertyValue)
      → ((bs : Bytes) → w ≡ ok bs → Reads packet id value bs)
      → mem id bound ≡ false
      → Loads (id ∷ bound) (struct.assign s id value) w' t
      → Loads bound s (w ⨾ w') t
  Loads-cons bound s t w w' id value reads new =
      Loads-round bound (id ∷ bound) s t w w' id value reads (λ seen spec f a within.
        (ground (arith, within id new), Within-mark seen bound _ id within))

  -- A property that may repeat leaves the bound as it is.
  pub Loads-repeat :
      (bound : List ℕ) (s t : S) (w w' : Result Bytes) (id : ℕ) (value : PropertyValue)
      → ((bs : Bytes) → w ≡ ok bs → Reads packet id value bs)
      → ((spec : PropertySpec)
          → property_spec id ≡ some spec
          → packet_allowed spec packet ≡ true
          → property_repeat_allowed spec packet ≡ true)
      → Loads bound (struct.assign s id value) w' t
      → Loads bound s (w ⨾ w') t
  Loads-repeat bound s t w w' id value reads repeats =
      Loads-round bound bound s t w w' id value reads
        (λ seen spec f a within. (rw (repeats spec f a), rw (repeats spec f a) within))

  -- A write that may be left out: one that appends nothing if `absent`, and else a property.
  pub Loads-skip :
      (bound : List ℕ) (s t : S) (w' : Result Bytes) (id : ℕ)
      → Loads (id ∷ bound) s w' t
      → Loads bound s (ok [] ⨾ w') t
  unfolding ◌⨾◌
  Loads-skip bound s t w' id rest = record {
    loads = λ bs seen rounds e within h.
        let (ds, e₂, e₃) = >>=-eq-ok w' _ e in
        let same : w' ≡ ok bs = cc in
        rest.loads bs seen rounds same (Within-cons seen bound id within) h;
  }

  pub Loads-opt :
      {A : Type 0} (bound : List ℕ) (s s₁ t : S) (v : Option A) (write : A → Result Bytes)
      (w' : Result Bytes) (id : ℕ) (value : A → PropertyValue)
      → mem id bound ≡ false
      → ((a : A) (bs : Bytes) → v ≡ some a → write a ≡ ok bs → Reads packet id (value a) bs)
      → (v ≡ none → s ≡ s₁)
      → ((a : A) → v ≡ some a → struct.assign s id (value a) ≡ s₁)
      → Loads (id ∷ bound) s₁ w' t
      → Loads bound s (append_opt write v ⨾ w') t
  unfolding append_opt
  Loads-opt bound s s₁ t none write w' id value new reads absent present rest =
      Loads-skip bound s t w' id (rw (absent refl) rest)
  Loads-opt bound s s₁ t (some a) write w' id value new reads absent present rest =
      Loads-cons bound s t (write a) w' id (value a) (λ bs. reads a bs refl) new
        (rw (present a refl) rest)

  pub Loads-nonempty :
      (bound : List ℕ) (s s₁ t : S) (v : Bytes) (write : Bytes → Result Bytes) (w' : Result Bytes)
      (id : ℕ)
      → mem id bound ≡ false
      → ((bs : Bytes)
          → write v ≡ ok bs
          → Reads packet id (record zero_value { string_value = v }) bs)
      → (v ≡ [] → s ≡ s₁)
      → (struct.assign s id (record zero_value { string_value = v }) ≡ s₁)
      → Loads (id ∷ bound) s₁ w' t
      → Loads bound s (append_nonempty write v ⨾ w') t
  unfolding append_nonempty
  Loads-nonempty bound s s₁ t [] write w' id new reads absent present rest =
      Loads-skip bound s t w' id (rw (absent refl) rest)
  Loads-nonempty bound s s₁ t (b ∷ bs) write w' id new reads absent present rest =
      Loads-cons bound s t (write (b ∷ bs)) w' id _ reads new (rw present rest)

  -- The user properties come last in every struct; `put us` is the struct with the users `us`.
  pub Loads-users :
      (bound : List ℕ) (put : List User → S) (us vs : List User)
      → ((us : List User) (v : User)
          → struct.assign (put us) Prop.user (record zero_value { user_value = v })
            ≡ put (us ++ v ∷ []))
      → Loads bound (put us) (append_user_properties packet vs) (put (us ++ vs))
  unfolding append_user_properties
  Loads-users bound put us [] assigned = rw append-nil (Loads-nil bound (put us))
  Loads-users bound put us (v ∷ vs) assigned =
      Loads-repeat bound (put us) _ _ _ Prop.user (record zero_value { user_value = v })
        (append_user_property-Reads packet v) (user-repeats packet)
        (rw (assigned us v) (
          subst (λ xs. Loads bound (put (us ++ v ∷ [])) (append_user_properties packet vs) (put xs))
            (append_assoc us (v ∷ []) vs) (Loads-users bound put (us ++ v ∷ []) vs assigned)))

  pub Loads-ids :
      (bound : List ℕ) (put : List ℕ → S) (is js : List ℕ) (t : S) (w : Result Bytes)
      → (packet ≡ publish) ⊎ (packet ≡ will_properties)
      → ((is : List ℕ) (j : ℕ)
          → struct.assign
              (put is)
              Prop.subscription_identifier
              (record zero_value { vbi_value = j })
            ≡ put (is ++ j ∷ []))
      → Loads bound (put (is ++ js)) w t
      → Loads bound (put is) (append_subscription_identifiers packet js ⨾ w) t
  unfolding append_subscription_identifiers property_spec
  Loads-ids bound put is [] t w carrier assigned rest =
      rw ok-⨾ (subst (λ xs. Loads bound (put xs) w t) (append-nil is) rest)
  Loads-ids bound put is (j ∷ js) t w carrier assigned rest = rw ⨾_assoc (
      Loads-repeat bound (put is) t _ _ Prop.subscription_identifier
        (record zero_value { vbi_value = j })
        (λ bs e. append_prop_vbi-Reads packet Prop.subscription_identifier _ refl j bs refl e)
        (λ spec. subscription_identifier-repeats packet spec carrier)
        (rw (assigned is j) (
          Loads-ids bound put (is ++ j ∷ []) js t w carrier assigned
            (subst (λ xs. Loads bound (put xs) w t) (sym (append_assoc is (j ∷ []) js)) rest))))
