-- ===== src/Calibration/References.antt =====
-- tools/calibration.py: the published data points.
use autocim_agent.Prelude.{◌<>◌, some, List, [], ◌∷◌}
use autocim_agent.Prelude.Float.{Float}
use autocim_agent.Calibration.{CalibrationReference}

module _ {F : Type 0} ⦃fl : Float F⦄ where
  -- `KNOWN_REFERENCES`
  abbrev pub known_references : List (CalibrationReference F)
  known_references =
      record {
        crossbar_rows = 128;
        crossbar_cols = 128;
        adc_bits = 7;
        weight_bits = 8;
        reference_energy_pj_per_mac = fl.decimal 47 3;
        source =
            "Peng et al., 'NeuroSim V1.5: Improved Software Backbone for "
            <> ("Benchmarking Compute-in-Memory Accelerators with Device and "
                <> ("Circuit-level Non-idealities' (arXiv:2505.02314), Table II default "
                    <> ("configuration")));
        note = some (
            "Energy/MAC derived from the paper's reported 21.3 TOPS/W; assumes "
            <> ("1 MAC == 1 'op' as the paper counts operations. If the paper's "
                <> ("TOPS convention counts a MAC as 2 ops instead, true energy/MAC is "
                    <> ("~2x this value -- stated here rather than silently absorbed into a "
                        <> ("falsely precise-looking number.")))));
      }
      ∷ record {
        crossbar_rows = 256;
        crossbar_cols = 64;
        adc_bits = 8;
        weight_bits = 3;
        reference_energy_pj_per_mac = fl.decimal 966 4;
        source =
            "Correll et al., 'An 8-bit 20.7 TOPS/W Multilevel Cell ReRAM Macro "
            <> ("With ADC-Assisted Bit-Serial Processing' (IEEE J. Solid-State "
                <> ("Circuits, vol. 60, no. 8, pp. 2995-3007, Aug. 2025), Sec. II.A "
                    <> ("(256x64 array, 8-bit ADCs/DACs) and Sec. V.G (20.7 TOPS/W measured "
                        <> ("raw peak efficiency)"))));
        note = some (
            "weight_bits=3 is the native per-cell MLC ReRAM precision "
            <> ("(write-verify programs 3-bit weights, Fig. 20/Sec. V.C) -- the "
                <> ("paper's dual-array technique composes two 3-bit cells into an "
                    <> ("effective ~4-bit signed weight for its LeNet1 demo, but that is a "
                        <> ("system-level composition on top of this crossbar, not its per-cell "
                            <> ("weight_bits. '8-bit' in the title refers to the input/ADC "
                                <> ("precision (256 DACs drive 8-bit inputs; 32 8-bit ADCs read out), "
                                    <> ("not the weight precision. The paper also reports a 662 TOPS/W "
                                        <> ("'normalized' figure (scaled to 1b x 1b MAC) -- deliberately not "
                                            <> ("used here in favor of the raw, as-measured 20.7 TOPS/W at this "
                                                <> ("exact array/ADC/weight config.")))))))))));
      }
      ∷ record {
        crossbar_rows = 64;
        crossbar_cols = 32;
        adc_bits = 5;
        weight_bits = 4;
        reference_energy_pj_per_mac = fl.decimal 46 4;
        source =
            "Chen, Chen & Gu, 'A 65nm 3T Dynamic Analog RAM-Based "
            <> ("Computing-in-Memory Macro and CNN Accelerator with Retention "
                <> ("Enhancement, Adaptive Analog Sparsity and 44TOPS/W System Energy "
                    <> ("Efficiency' (ISSCC 2021, Session 15.3, pp. 236-238) -- 'CIM macro "
                        <> ("contains a 64x32 DARAM array... A 5b SAR ADC and a 4b current DAC "
                            <> ("are implemented at each column' and 'this work achieves a macro "
                                <> ("efficiency of 217TOPS/W at 4b'"))))));
        note = some (
            "weight_bits=4 is the DARAM cell's native analog-stored weight "
            <> ("precision ('A 4b weight is stored as an analog voltage on the "
                <> ("internal MEM node'); the design natively supports 4b/4b "
                    <> ("input-weight and can combine two DARAM cells for 8b/8b, which is a "
                        <> ("system-level composition, not this array's per-cell weight_bits. "
                            <> ("As with the NeuroSim reference above, the paper does not state "
                                <> ("whether its TOPS convention counts a MAC as 1 or 2 ops; assumed 1 "
                                    <> ("MAC == 1 op here, so true energy/MAC could be ~2x this value -- "
                                        <> ("stated rather than silently absorbed.")))))))));
      }
      ∷ record {
        crossbar_rows = 128;
        crossbar_cols = 128;
        adc_bits = 1;
        weight_bits = 1;
        reference_energy_pj_per_mac = fl.decimal 204 5;
        source =
            "Yu, Yoo, Kim, Chai & Kim, 'A 16K Current-Based 8T SRAM "
            <> ("Compute-In-Memory Macro with Decoupled Read/Write and 1-5bit "
                <> ("Column ADC' (IEEE Custom Integrated Circuits Conference, 2020) -- "
                    <> ("'Array Size 128 x 128 (16K)' and 'Energy/OP 2.04fJ/OP (1bit)' "
                        <> ("(Fig. 10 chip summary), 1-bit ADC mode"))));
        note = some (
            "weight_bits=1 is this design's native precision: weights are "
            <> ("binary (-1/+1) SRAM-cell states, not a quantized multi-bit value "
                <> ("(Table I: 'Weight Bit# = 1'). This is the 1-bit-ADC operating "
                    <> ("point of the same physical 128x128 macro as the adc_bits=5 "
                        <> ("reference below -- the pair lets a caller sanity-check "
                            <> ("tools/cim_physics.py's 2**adc_bits ADC-energy scaling against two "
                                <> ("real measured points on identical hardware, not just one.")))))));
      }
      ∷ record {
        crossbar_rows = 128;
        crossbar_cols = 128;
        adc_bits = 5;
        weight_bits = 1;
        reference_energy_pj_per_mac = fl.decimal 633 4;
        source =
            "Yu, Yoo, Kim, Chai & Kim, 'A 16K Current-Based 8T SRAM "
            <> ("Compute-In-Memory Macro with Decoupled Read/Write and 1-5bit "
                <> ("Column ADC' (IEEE Custom Integrated Circuits Conference, 2020) -- "
                    <> ("'Array Size 128 x 128 (16K)' and abstract's '...15.8TOPS/W at "
                        <> ("1-5bit ADC mode', 5-bit ADC mode endpoint"))));
        note = some (
            "weight_bits=1 (binary, see the adc_bits=1 entry above's note). The "
            <> ("paper reports the 490->15.8 TOPS/W range as its two stated "
                <> ("endpoints (1-bit and 5-bit); the 2/3/4-bit interior points were "
                    <> ("only shown in a bar chart in the source PDF, not stated as numbers "
                        <> ("in the text, so they are deliberately not interpolated into "
                            <> ("additional entries here."))))));
      }
      ∷ record {
        crossbar_rows = 64;
        crossbar_cols = 64;
        adc_bits = 4;
        weight_bits = 1;
        reference_energy_pj_per_mac = fl.decimal 289 5;
        source =
            "Garg, Jia, Phadke & Yu, 'A 28-nm FeFET Compute-in-Memory Macro "
            <> ("With 64x64 Array Size and On-Chip 4-Bit Flash ADC' (IEEE "
                <> ("Solid-State Circuits Letters, vol. 9, pp. 13-16, 2026) -- 'a 4-kb "
                    <> ("FeFET-CIM macro fabricated in the GlobalFoundries 28-nm high-k "
                        <> ("metal gate (HKMG) process... a 64x64 FeFET array with peripheral "
                            <> ("circuits for program, erase, and current-mode CIM operations and "
                                <> ("eight 4-bit Flash ADCs' and 'an energy efficiency of 346.6 TOPS/W "
                                    <> ("for 1x1b MAC'")))))));
        note = some (
            "weight_bits=1 is this design's native operating point -- the "
            <> ("paper's headline 346.6 TOPS/W figure is reported specifically 'for "
                <> ("1x1b MAC', i.e. 1-bit weight, 1-bit input. The abstract separately "
                    <> ("reports '85.2% [CIFAR10/VGG-8 inference accuracy] for 16 row "
                        <> ("parallel compute with 4-bit ADC resolution' and '89.1% with 8 row "
                            <> ("parallel compute with 3-bit resolution' -- those are the paper's "
                                <> ("own multi-row-parallelism/reduced-ADC operating modes, not "
                                    <> ("additional weight-precision data points, so they are not added as "
                                        <> ("separate entries here.")))))))));
      }
      ∷ record {
        crossbar_rows = 256;
        crossbar_cols = 512;
        adc_bits = 6;
        weight_bits = 1;
        reference_energy_pj_per_mac = fl.decimal 24 3;
        source =
            "Deaville, Zhang & Verma, 'A 22nm 128-kb MRAM Row/Column-Parallel "
            <> ("In-Memory Computing Macro with Memory-Resistance Boosting and "
                <> ("Multi-Column ADC Readout' (2022 IEEE Symposium on VLSI Technology "
                    <> ("and Circuits, pp. 268-269) -- 'a 256(row)x512(col.) MRAM array... "
                        <> ("a 6-b current-to-digital converter (IDC), based on a SAR "
                            <> ("architecture' and 'high energy efficiency (41.6 1b-TOPS/W)'")))));
        note = some (
            "MRAM, not ReRAM -- flagged explicitly since every other reference "
            <> ("in this list up to here is ReRAM or SRAM; the underlying device "
                <> ("physics differ, though both are foundry-integrated eNVM crossbars "
                    <> ("read out through a conventional multi-bit ADC, which is what "
                        <> ("tools/cim_physics.py's model actually depends on. Array is "
                            <> ("256x512, not the square 256x256 originally sought -- the "
                                <> ("crossbar_cols=512 side is twice the requested size. Substituted "
                                    <> ("for the original 256x256/6-bit/22nm ReRAM 'mainstream' target "
                                        <> ("after no silicon-measured exact match at that array "
                                            <> ("size/technology was found -- the adc_bits=6 and 22nm process, "
                                                <> ("arguably the two specs a calibration factor is most sensitive to, "
                                                    <> ("are exact matches."))))))))))));
      }
      ∷ record {
        crossbar_rows = 256;
        crossbar_cols = 80;
        adc_bits = 4;
        weight_bits = 8;
        reference_energy_pj_per_mac = fl.decimal 2 2;
        source =
            "Anonymous authors (Korea University), 'A Charge Domain P-8T SRAM "
            <> ("Compute-In-Memory with Low-Cost DAC/ADC Operation for 4-bit Input "
                <> ("Processing' (arXiv:2211.16008; open-access preprint of Lee, Kim & "
                    <> ("Park, IEEE JSSC vol. 59 no. 6, pp. 1926-1937, June 2024) -- Table "
                        <> ("II: 'SRAM Array Size 256x80 (16x5 AMUs)', 'ADC Scheme 4-bit "
                            <> ("Coarse-Fine Flash', 'Input / Weight 4 bit / 8 bit', 'Energy "
                                <> ("Efficiency (16 Rows) 50.07 (0.6V)'"))))));
        note = some (
            "Originally sought for a 128x128/4-bit-ADC/4-bit-weight/28nm 'edge' "
            <> ("target; substituted after the exact JSSC 2024 target (same design) "
                <> ("was confirmed unobtainable (IEEE Xplore paywall) -- this arXiv "
                    <> ("preprint of the same work reports the identical headline number "
                        <> ("(50.07 TOPS/W, vs. the journal version's rounded 50.1 TOPS/W) with "
                            <> ("full Table I/II detail the published abstract alone did not "
                                <> ("expose. See crossbar size and weight_bits caveats above.")))))));
      }
      ∷ []
