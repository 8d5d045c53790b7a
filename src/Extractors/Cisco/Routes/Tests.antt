-- ===== src/Extractors/Cisco/Routes/Tests.antt =====
-- extractors/cisco/ios/routing_table.py on a short dump.
use vantacore_engine.Prelude.{[], none, refl, some, ◌++◌, ◌-◌, ◌↔◌, ◌∷◌, ◌≡◌, ◌≤◌}
use vantacore_engine.Bytes.{Bytes, bytes_eq, find, find_from, starts_with}
use vantacore_engine.Extractors.Chunked.{scan_chunks}
use vantacore_engine.Extractors.Keyed.{bytes_key, number_key, pair_key}
use vantacore_engine.Extractors.Text.{
  all_octets, first_token, int, int_digits, is_dotted, line_at, lstrip, rstrip, split_on, strip,
  until, words_from,
}
use vantacore_engine.Extractors.Patterns.{scan_pattern}
use vantacore_engine.Extractors.Cisco.Routes.Texts.{
  binary_str, count_ones, has_zero_one, is_valid_ip, is_valid_ipv4_prefix, mask_bits,
  mask_to_prefix_len, split_slash,
}
use vantacore_engine.Extractors.Cisco.Routes.Mask.{mask_of, mask_to_prefix_len_iff}
use vantacore_engine.Extractors.Cisco.Routes.{
  add_route, add_static, ip_route, next_hop_of, ospf, run, scan_codes, static, visit_chunk,
  visit_code, visit_static,
}

-- "255.128.0.0"
abbrev nine : Bytes
nine = b'2' ∷ b'5' ∷ b'5' ∷ b'.' ∷ b'1' ∷ b'2' ∷ b'8' ∷ b'.' ∷ b'0' ∷ b'.' ∷ b'0' ∷ []

-- "1.0.0.0"
abbrev net : Bytes
net = b'1' ∷ b'.' ∷ b'0' ∷ b'.' ∷ b'0' ∷ b'.' ∷ b'0' ∷ []

nine-bits : mask_to_prefix_len nine ≡ some 9
unfolding mask_to_prefix_len mask_bits binary_str count_ones has_zero_one is_valid_ip is_dotted
    all_octets split_on strip lstrip rstrip int int_digits
nine-bits = refl

no-mask : mask_to_prefix_len net ≡ none
unfolding mask_to_prefix_len mask_bits binary_str count_ones has_zero_one is_valid_ip is_dotted
    all_octets split_on strip lstrip rstrip int int_digits
no-mask = refl

mask_to_prefix_len_iff_example :
    (mask_to_prefix_len nine ≡ some 9) ↔ (9 ≤ 32) × (mask_bits nine ≡ some (mask_of 9 (32 - 9)))
mask_to_prefix_len_iff_example = mask_to_prefix_len_iff nine 9

-- "O 1.0.0.0/8 via 1.0.0.0," and "ip route 1.0.0.0 255.128.0.0 x".
abbrev table : Bytes
table =
    (b'O' ∷ 32 ∷ net)
    ++ (b'/' ∷ b'8' ∷ 32 ∷ b'v' ∷ b'i' ∷ b'a' ∷ 32 ∷ net)
    ++ (b',' ∷ 10 ∷ ip_route)
    ++ net
    ++ (32 ∷ nine)
    ++ (32 ∷ b'x' ∷ 0 ∷ [])

table-routes :
    run table
    ≡ (record {
      protocol = ospf;
      prefix = net ++ (b'/' ∷ b'8' ∷ []);
      next_hop = some net;
      physical_offset = 0;
    })
      ∷ (record {
        protocol = static;
        prefix = net ++ (b'/' ∷ b'9' ∷ []);
        next_hop = none;
        physical_offset = 25;
      })
      ∷ []
unfolding run visit_chunk scan_codes visit_code visit_static add_static add_route next_hop_of
    scan_chunks scan_pattern find_from find starts_with bytes_eq mask_to_prefix_len mask_bits
    binary_str count_ones has_zero_one is_valid_ip is_valid_ipv4_prefix split_slash is_dotted
    all_octets split_on strip lstrip rstrip int int_digits line_at until words_from first_token
table-routes = refl
