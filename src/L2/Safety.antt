-- ===== src/L2/Safety.antt =====
-- No frame from the guest makes `L2Gateway::handle_frame` (vm-frontend/src/l2_gateway.rs) panic:
-- every index and slice is within bounds, and the option loop ends.
use wrapper.Common.{
  ℕ, zero, suc, ◌+◌, ◌*◌, ◌/◌, ◌%◌, ◌≤◌, ◌<◌, ◌≡◌, ◌≢◌, refl, Bool, ltb→lt, true, false, not, ◌||◌,
  [], ◌∷◌, Bytes, ltb, ◌==◌, length, arith, bytes_eq,
}
use wrapper.Fetch.{
  Fetch, panic, present, ◌>>=◌, byte_at, slice, word_at, NoPanic, NoPanic-absent, NoPanic-present,
  NoPanic-refuse_if, NoPanic-bind, NoPanic-byte_at, NoPanic-slice, NoPanic-word_at, length-slice,
}
use wrapper.L2.{
  octets, to_ipv4, to_mac, L2Gateway, arp_reply, handle_arp, dhcp_option_from, dhcp_option,
  response_type, first_byte, handle_dhcp, handle_ipv4, handle_frame, dhcp_magic_cookie,
}

NoPanic-to_ipv4 : (xs : Bytes) → NoPanic (to_ipv4 xs)
NoPanic-to_ipv4 (a ∷ b ∷ c ∷ d ∷ []) = NoPanic-present _
NoPanic-to_ipv4 _ = NoPanic-absent

NoPanic-to_mac : (xs : Bytes) → NoPanic (to_mac xs)
NoPanic-to_mac (a ∷ b ∷ c ∷ d ∷ e ∷ f ∷ []) = NoPanic-present _
NoPanic-to_mac _ = NoPanic-absent

NoPanic-first_byte : (xs : Bytes) → NoPanic (first_byte xs)
NoPanic-first_byte [] = NoPanic-absent
NoPanic-first_byte (b ∷ bs) = NoPanic-present b

NoPanic-response_type : (t : ℕ) → NoPanic (response_type t)
NoPanic-response_type t = record { no_panic = λ e. ground arith }

-- A test in the form that a hypothesis of `omega` takes.
le_of_ltb : (a b : ℕ) → ltb a b ≡ false → b ≤ a
le_of_ltb a b h = ground arith

module _ (g : L2Gateway) where
  arp_sender-NoPanic :
      (arp : Bytes)
      → length arp ≡ 28
      → NoPanic (do
        sender_mac_bytes ← slice arp 8 14
        sender_mac ← to_mac sender_mac_bytes
        sender_ip_bytes ← slice arp 14 18
        sender_ip ← to_ipv4 sender_ip_bytes
        present (arp_reply g sender_mac sender_ip))
  arp_sender-NoPanic arp l =
      NoPanic-bind (slice arp 8 14) _ (NoPanic-slice arp 8 14 (omega arith) (omega arith)) λ m _.
        NoPanic-bind (to_mac m) _ (NoPanic-to_mac m) λ sm _.
          NoPanic-bind (slice arp 14 18) _ (NoPanic-slice arp 14 18 (omega arith) (omega arith))
            λ i _. NoPanic-bind (to_ipv4 i) _ (NoPanic-to_ipv4 i) λ si _. NoPanic-present _

  handle_arp-NoPanic : (frame : Bytes) → NoPanic (handle_arp g frame)
  unfolding handle_arp
  handle_arp-NoPanic frame = NoPanic-refuse_if (ltb (length frame) 42) _ λ long.
      NoPanic-bind (slice frame 14 42) _
        (NoPanic-slice frame 14 42 (omega arith) (le_of_ltb _ _ long))
        λ arp s.
          let l = length-slice frame 14 42 s in
          NoPanic-bind (word_at arp 0 1) _ (NoPanic-word_at arp 0 1 (omega arith) (omega arith))
            λ htype _.
              NoPanic-bind (word_at arp 2 3) _ (NoPanic-word_at arp 2 3 (omega arith) (omega arith))
                λ ptype _.
                  NoPanic-bind (byte_at arp 4) _ (NoPanic-byte_at arp 4 (omega arith)) λ hlen _.
                    NoPanic-bind (byte_at arp 5) _ (NoPanic-byte_at arp 5 (omega arith)) λ plen _.
                      NoPanic-bind (word_at arp 6 7) _
                        (NoPanic-word_at arp 6 7 (omega arith) (omega arith))
                        λ oper _.
                          NoPanic-refuse_if
                            (not (htype == 1)
                              || (not (ptype == 0x0800)
                                  || (not (hlen == 6) || (not (plen == 4) || not (oper == 1)))))
                            _
                            λ _.
                              NoPanic-bind (slice arp 24 28) _
                                (NoPanic-slice arp 24 28 (omega arith) (omega arith))
                                λ target _.
                                  NoPanic-refuse_if (not (bytes_eq target (octets g.gateway_ip))) _
                                    λ _. arp_sender-NoPanic arp l

NoPanic-elim {ℓ} :
    {A : Type ℓ} (b : Bool) (m n : Fetch A)
    → (b ≡ true → NoPanic m)
    → (b ≡ false → NoPanic n)
    → NoPanic (elim b [ true ↦ m | false ↦ n ])
NoPanic-elim true m n p q = p refl
NoPanic-elim false m n p q = q refl

-- There is fuel for each position of the payload that is left, and the test at its end.
dhcp_option_from-NoPanic :
    (fuel : ℕ) (payload : Bytes) (code index : ℕ)
    → 0 < fuel
    → length payload < fuel + index
    → NoPanic (dhcp_option_from fuel payload code index)
unfolding dhcp_option_from
dhcp_option_from-NoPanic zero payload code index z h = absurd (omega arith)
dhcp_option_from-NoPanic (suc fuel) payload code index z h =
    NoPanic-elim (ltb index (length payload)) _ _
      (λ within.
        let w = ltb→lt index (length payload) within in
        NoPanic-bind (byte_at payload index) _ (NoPanic-byte_at payload index w) λ current _.
          NoPanic-elim (current == 0) _ _
            (λ _.
              dhcp_option_from-NoPanic fuel payload code (index + 1) (omega arith) (omega arith))
            λ _.
              NoPanic-elim (current == 255) _ _ (λ _. NoPanic-absent)
                λ _.
                  NoPanic-elim (ltb (index + 1) (length payload)) _ _
                    (λ next.
                      NoPanic-bind (byte_at payload (index + 1)) _
                        (NoPanic-byte_at payload (index + 1) (ltb→lt _ _ next))
                        λ len _.
                          NoPanic-elim (ltb (length payload) (index + 2 + len)) _ _
                            (λ _. NoPanic-absent)
                            λ fits.
                              NoPanic-elim (current == code) _ _
                                (λ _.
                                  NoPanic-slice payload (index + 2) (index + 2 + len) (omega arith)
                                    (le_of_ltb _ _ fits))
                                λ _.
                                  dhcp_option_from-NoPanic fuel payload code (index + 2 + len)
                                    (omega arith) (omega arith))
                    λ _. NoPanic-absent)
      λ _. NoPanic-absent

dhcp_option-NoPanic : (payload : Bytes) (code : ℕ) → NoPanic (dhcp_option payload code)
unfolding dhcp_option
dhcp_option-NoPanic payload code =
    dhcp_option_from-NoPanic _ payload code 240 (omega arith) (omega arith)

module _ (g : L2Gateway) where
  handle_dhcp-NoPanic : (payload : Bytes) → NoPanic (handle_dhcp g payload)
  unfolding handle_dhcp
  handle_dhcp-NoPanic payload = NoPanic-refuse_if (ltb (length payload) 240) _ λ short.
      let l = le_of_ltb (length payload) 240 short in
      NoPanic-bind (slice payload 236 240) _ (NoPanic-slice payload 236 240 (omega arith) l)
        λ cookie _. NoPanic-refuse_if (not (bytes_eq cookie dhcp_magic_cookie)) _ λ _.
          NoPanic-bind (dhcp_option payload 53) _ (dhcp_option-NoPanic payload 53) λ value _.
            NoPanic-bind (first_byte value) _ (NoPanic-first_byte value) λ t _.
              NoPanic-bind (response_type t) _ (NoPanic-response_type t) λ answer _.
                NoPanic-bind (slice payload 28 34) _
                  (NoPanic-slice payload 28 34 (omega arith) (omega arith))
                  λ m _. NoPanic-bind (to_mac m) _ (NoPanic-to_mac m) λ client_mac _.
                    NoPanic-bind (slice payload 4 8) _
                      (NoPanic-slice payload 4 8 (omega arith) (omega arith))
                      λ x _.
                        NoPanic-bind (to_ipv4 x) _ (NoPanic-to_ipv4 x) λ xid _. NoPanic-present _

  handle_ipv4-NoPanic : (frame : Bytes) → NoPanic (handle_ipv4 g frame)
  unfolding handle_ipv4
  handle_ipv4-NoPanic frame = NoPanic-refuse_if (ltb (length frame) 34) _ λ short.
      let l = le_of_ltb (length frame) 34 short in
      NoPanic-bind (slice frame 14 (length frame)) _
        (NoPanic-slice frame 14 (length frame) (omega arith) (omega arith))
        λ ip s.
          let n = length-slice frame 14 (length frame) s in
          NoPanic-bind (byte_at ip 0) _ (NoPanic-byte_at ip 0 (omega arith)) λ b0 _.
            NoPanic-refuse_if
              (not (b0 / 16 == 4) || (ltb (b0 % 16 * 4) 20 || ltb (length ip) (b0 % 16 * 4 + 8))) _
              λ header.
                let fits : (20 ≤ b0 % 16 * 4) × (b0 % 16 * 4 + 8 ≤ length ip) = ground arith in
                NoPanic-bind (byte_at ip 9) _ (NoPanic-byte_at ip 9 (omega arith)) λ protocol _.
                  NoPanic-refuse_if (not (protocol == 17)) _ λ _.
                    NoPanic-bind (word_at ip 2 3) _
                      (NoPanic-word_at ip 2 3 (omega arith) (omega arith))
                      λ total_len _.
                        NoPanic-refuse_if
                          (ltb total_len (b0 % 16 * 4 + 8) || ltb (length ip) total_len) _
                          λ total.
                            let whole : (b0 % 16 * 4 + 8 ≤ total_len) × (total_len ≤ length ip) =
                              ground arith in
                            NoPanic-bind (slice ip (b0 % 16 * 4) total_len) _
                              (NoPanic-slice ip (b0 % 16 * 4) total_len (omega arith) whole.1)
                              λ udp u.
                                let k = length-slice ip (b0 % 16 * 4) total_len u in
                                NoPanic-bind (word_at udp 0 1) _
                                  (NoPanic-word_at udp 0 1 (omega arith) (omega arith))
                                  λ src_port _.
                                    NoPanic-bind (word_at udp 2 3) _
                                      (NoPanic-word_at udp 2 3 (omega arith) (omega arith))
                                      λ dst_port _.
                                        NoPanic-bind (word_at udp 4 5) _
                                          (NoPanic-word_at udp 4 5 (omega arith) (omega arith))
                                          λ udp_len _.
                                            NoPanic-refuse_if
                                              (not (src_port == 68)
                                                || (not (dst_port == 67)
                                                    || (ltb udp_len 8 || ltb (length udp) udp_len)))
                                              _
                                              λ ports.
                                                let body : (8 ≤ udp_len) × (udp_len ≤ length udp) =
                                                  ground arith in
                                                NoPanic-bind (slice udp 8 udp_len) _
                                                  (NoPanic-slice udp 8 udp_len body.0 body.1)
                                                  λ payload _. handle_dhcp-NoPanic payload

  -- Whatever bytes arrive as a frame, `handle_frame` returns a reply or `None`: no index or slice
  -- is out of bounds, and the loop over the DHCP options ends.
  pub handle_frame-NoPanic : (frame : Bytes) → handle_frame g frame ≢ panic
  unfolding handle_frame
  handle_frame-NoPanic frame = NoPanic.no_panic (
      NoPanic-refuse_if (ltb (length frame) 14) _ λ short.
        let l = le_of_ltb (length frame) 14 short in
        NoPanic-bind (word_at frame 12 13) _
          (NoPanic-word_at frame 12 13 (omega arith) (omega arith))
          λ ethertype _. record {
            no_panic = λ e. ground (
              arith,
              (handle_arp-NoPanic g frame).no_panic,
              (handle_ipv4-NoPanic frame).no_panic,
            );
          })
