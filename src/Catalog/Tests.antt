-- ===== src/Catalog/Tests.antt =====
-- The grid of the fifteen personas.
use enterprise_rag_engine.Prelude.{◌*◌, refl, arith, All, length, strip, has_control}
use enterprise_rag_engine.Catalog.Matrix.{personas}
use enterprise_rag_engine.Catalog.Oracle.{build_oracle_grid}
use enterprise_rag_engine.Catalog.Oracle.Exact.{IsPlainPersona, HasGrid, build_oracle_grid-exact}

personas_plain : All IsPlainPersona personas
unfolding strip has_control
personas_plain = (
  (omega arith, ((refl, refl, refl), ((refl, refl, refl), tt))),
  (
    (omega arith, ((refl, refl, refl), ((refl, refl, refl), tt))),
    (
      (omega arith, ((refl, refl, refl), ((refl, refl, refl), tt))),
      (
        (omega arith, ((refl, refl, refl), ((refl, refl, refl), tt))),
        (
          (omega arith, ((refl, refl, refl), ((refl, refl, refl), tt))),
          (
            (omega arith, ((refl, refl, refl), ((refl, refl, refl), tt))),
            (
              (omega arith, ((refl, refl, refl), ((refl, refl, refl), tt))),
              (
                (omega arith, ((refl, refl, refl), ((refl, refl, refl), tt))),
                (
                  (omega arith, ((refl, refl, refl), ((refl, refl, refl), tt))),
                  (
                    (
                      omega arith,
                      ((refl, refl, refl), ((refl, refl, refl), ((refl, refl, refl), tt))),
                    ),
                    (
                      (omega arith, ((refl, refl, refl), ((refl, refl, refl), tt))),
                      (
                        (
                          omega arith,
                          ((refl, refl, refl), ((refl, refl, refl), ((refl, refl, refl), tt))),
                        ),
                        (
                          (omega arith, ((refl, refl, refl), ((refl, refl, refl), tt))),
                          (
                            (
                              omega arith,
                              ((refl, refl, refl), ((refl, refl, refl), ((refl, refl, refl), tt))),
                            ),
                            (
                              (
                                omega arith,
                                (
                                  (refl, refl, refl),
                                  (
                                    (refl, refl, refl),
                                    ((refl, refl, refl), ((refl, refl, refl), tt)),
                                  ),
                                ),
                              ),
                              tt,
                            ),
                          ),
                        ),
                      ),
                    ),
                  ),
                ),
              ),
            ),
          ),
        ),
      ),
    ),
  ),
)

build_oracle_grid-exact_example : HasGrid (length personas * 14) (build_oracle_grid personas)
build_oracle_grid-exact_example = build_oracle_grid-exact personas personas_plain
