-- ===== src/Apple/Connect.antt =====
-- app/mdm/apple/connect.py: PUT /mdm/apple/connect.
pub mod Queue
pub mod Status
pub mod Reports
pub mod Handler
pub mod Frame
pub mod Results
