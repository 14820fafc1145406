-- ===== src/Relay/Combine/Whole.antt =====
-- The result of the combination.
use embedded_services.Base.{
  ◌-◌, ℕ, zero, suc, ◌≤◌, ◌<◌, ◌≡◌, ◌⊎◌, inl, inr, refl, ap, true, false, List, [], Result, ok, err,
  length, ltb, arith, All, map, dec_lt,
}
use embedded_services.Relay.Item.{HidDescriptorError, too_many_report_ids, output_buffer_too_small}
use embedded_services.Relay.Descriptor.{HidReportDescriptor, new}
use embedded_services.Relay.Blocks.{zeros}
use embedded_services.Relay.IdMap.{ReportIdMapBuilder, finish}
use embedded_services.Relay.IdMap.Table.{concat, IsTableOf}
use embedded_services.Relay.Combine.{
  Combiner, on_builder, combine_inputs, expected_output_buffer_size, combiner, Combined, with_map,
  parsed_again, combine,
}
use embedded_services.Relay.Combine.Outcome.{Goal, Outcome, bind-Outcome}
use embedded_services.Relay.Combine.Builder.{IsBetween, finish-IsTableOf}
use embedded_services.Relay.Combine.Reports.{reports_of}
use embedded_services.Relay.Combine.Inputs.{Had}
use embedded_services.Relay.Combine.Sequence.{IsParsed, inputs-Outcome}
use embedded_services.Relay.Combine.Written.{combined_bytes}

length-zeros : (n : ℕ) → length (zeros n) ≡ n
length-zeros zero = refl
length-zeros (suc n) = ap suc (length-zeros n)

-- What comes of a combination where the buffer is large enough.
abbrev pub Done : List HidReportDescriptor → ℕ → Result Combined HidDescriptorError → Type 0
Done inputs capacity r =
    let reports = map reports_of inputs in
    let total = length (concat reports) in
    ((r ≡ err too_many_report_ids) × ((capacity < total) ⊎ (255 < total)))
    ⊎ ((b : ReportIdMapBuilder) × IsTableOf reports
          (record { remaps = b.remaps; blocks = b.blocks })
        × (r ≡ with_map b (new (combined_bytes 0 inputs))))

finished_lem :
    (inputs : List HidReportDescriptor) (capacity : ℕ) (r : Result ℕ HidDescriptorError × Combiner)
    → Outcome
        (record { capacity = capacity; total = length (concat (map reports_of inputs)) })
        (λ n t.
          IsTableOf
            (map reports_of inputs)
            (record { remaps = t.builder.remaps; blocks = t.builder.blocks })
          × (t.writer.written ≡ combined_bytes 0 inputs))
        r
    → Done inputs capacity (parsed_again r)
finished_lem inputs capacity (ok n, s) (inl (e, f)) = absurd (ground (arith, e))
finished_lem inputs capacity (err x, s) (inl (e, f)) = inl (ap (λ v. parsed_again (v, s)) e, f)
finished_lem inputs capacity (err x, s) (inr (a, e, p)) = absurd (ground (arith, e))
finished_lem inputs capacity (ok n, s) (inr (a, e, p)) =
    inr (s.builder, p.0, ap (λ w. with_map s.builder (new w)) p.1)

-- The combination of parsed descriptors is refused at once if the buffer has less room than all of them and
-- four bytes for each. Otherwise the buffer is enough; identifiers run out only if the reports of all
-- descriptors are more than the map can hold or more than 255; and otherwise the map numbers the reports in
-- order, those of one descriptor behind those of the one before it, and the result is what the parser makes
-- of `combined_bytes`: each descriptor between a Push and a Pop, each Report ID replaced by the number of its
-- report, and one put behind the first collection of a descriptor that has none. If the parser refuses these
-- bytes, its error is the result.
pub combine_lem :
    (inputs : List HidReportDescriptor) (capacity room : ℕ)
    → All IsParsed inputs
    → let expected = expected_output_buffer_size inputs in
      ((room < expected) × (combine capacity inputs room ≡ err (output_buffer_too_small expected)))
      ⊎ ((expected ≤ room) × Done inputs capacity (combine capacity inputs room))
unfolding combine expected_output_buffer_size
combine_lem inputs capacity room p =
    let expected = expected_output_buffer_size inputs in
    let reports = map reports_of inputs in
    let g : Goal = record { capacity = capacity; total = length (concat reports) } in
    let start = combiner capacity (length inputs) room in
    let R : ℕ → Combiner → Type 0 = λ n t.
      IsTableOf reports (record { remaps = t.builder.remaps; blocks = t.builder.blocks })
      × (t.writer.written ≡ combined_bytes 0 inputs) in
    elim (dec_lt room expected) [
      | yes k ↦ let c : ltb room expected ≡ true = ground (arith, k) in inl (k, rw c refl)
      | no k ↦
          let c : ltb room expected ≡ false = ground (arith, k) in
          let w = combined_bytes 0 inputs in
          let q =
            inputs-Outcome g inputs [] (zeros (length inputs)) (room - expected) [] w start p
              (length-zeros (length inputs)) (omega arith)
              (
                record {
                  room = zeros capacity;
                  in_order = refl;
                  blocks_start = refl;
                  all_counted = refl;
                  few = omega arith;
                  size = omega (arith, length-zeros capacity);
                },
                (refl, omega (arith, k)),
              )
              refl in
          inr (
            omega (arith, k),
            rw c (
                finished_lem inputs capacity _ (
                  bind-Outcome g (λ u t. Had (IsBetween g reports []) w (room - expected) t) R
                    (combine_inputs 0 inputs) (λ u. on_builder finish) start q
                    (λ u t h.
                      let f = finish-IsTableOf g reports t.builder h.0 in
                      inr (t.builder.count, f.0, (f.1, h.1.0))))),
          )
    ]
